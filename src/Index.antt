-- ===== src/Index.antt =====
-- `generateIndex` of operator/wga.go and its helpers: the host number that an address is made from.
-- The clock and the random source are arguments.
mod Bits
pub mod Bounds
pub mod Distinct
mod Samples
use Prim.Native.Nat.{bit_or}
use wga.Base.{ℕ, ◌+◌, ◌-◌, ◌%◌, ◌*◌, ◌^◌, max, leb, if◌then◌else◌, Outcome, ok, panic, bytes}
use wga.Net.{IpNet, mask_size}

-- The host bits of a network.
unfoldable pub mask_bits : IpNet → ℕ
mask_bits cidr = let (ones, bits) = mask_size cidr.mask in bits - ones

-- 2 to the power of `bits`
unfoldable pub big_max : ℕ → ℕ
big_max bits = 2 ^ bits

-- `max(16, mask-64)`
unfoldable pub rand_size : ℕ → ℕ
rand_size mask = max 16 (mask - 64)

-- `1<<uint(randSize) - 1`, which Go reads as (1 << randSize) - 1 in int64. At a shift of 63 it wraps
-- twice, to the number that is written here.
unfoldable pub rand_limit : ℕ → ℕ
unfolding rand_size
rand_limit mask = 2 ^ rand_size mask - 1

-- `rand n` is `rand.Int64N(n)` and `nanos` is `t.UnixNano()`, for a time after 1970. The big integers
-- are natural numbers.
unfoldable pub generate_index : (ℕ → ℕ) → ℕ → ℕ → Outcome ℕ
unfolding rand_limit big_max
generate_index rand nanos mask =
    if leb 128 mask
    then panic (bytes "mask too large")
    else (let r = rand (rand_limit mask) in
        let shifted = nanos * 2 ^ rand_size mask in
        let filled = bit_or shifted r in ok ((filled + r) % big_max mask))
