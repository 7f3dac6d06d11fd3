-- ===== src/Index/Bounds.antt =====
-- What `generateIndex` returns for every network size.
use wga.Base.{
  ℕ, zero, suc, ◌+◌, ◌*◌, ◌/◌, ◌%◌, ◌^◌, ◌≤◌, ◌<◌, ◌≡◌, arith, ok, panic, leb, false, bytes, true,
  ap,
}
use wga.Index.Bits.{bit_or-shifted}
use wga.Index.{rand_limit, generate_index, rand_size, big_max}
use native.Mathlib.Nat.{pow-suc, div-add-mod, mod-lt}

pub pow_pos : (k : ℕ) → 0 < 2 ^ k
pow_pos zero = omega arith
pow_pos (suc k) = omega (arith, pow-suc 2 k, pow_pos k)

pub pow_le : (j k : ℕ) → j ≤ k → 2 ^ j ≤ 2 ^ k
pow_le zero k h = omega (arith, pow_pos k)
pow_le (suc j) zero h = absurd (omega arith)
pow_le (suc j) (suc k) h = omega (arith, pow-suc 2 j, pow-suc 2 k, pow_le j k (omega arith))

-- `rand.Int64N(n)` returns a number below n, for n above 0.
abbrev pub IsRandom : (ℕ → ℕ) → Type 0
IsRandom rand = (n : ℕ) → 0 < n → rand n < n

-- For every mask that is accepted, the argument of `rand.Int64N` is positive, so that it does not
-- panic, and fits in an int64.
pub rand_limit_fits : (mask : ℕ) → mask < 128 → (0 < rand_limit mask) × (rand_limit mask < 2 ^ 63)
unfolding rand_limit rand_size
rand_limit_fits mask h =
    let s = rand_size mask in
    let low : 16 ≤ rand_size mask = omega arith in
    let high : rand_size mask ≤ 63 = omega arith in
    (omega (arith, pow_le 16 s low), omega (arith, pow_le s 63 high, pow_pos s))

rand_size_pos : (mask : ℕ) → 1 ≤ rand_size mask
unfolding rand_size
rand_size_pos mask = omega arith

module _ (rand : ℕ → ℕ) (random : IsRandom rand) where
  pub drawn_lt : (mask : ℕ) → mask < 128 → rand (rand_limit mask) + 1 < 2 ^ rand_size mask
  unfolding rand_limit
  drawn_lt mask h =
      omega (arith, random (rand_limit mask) (rand_limit_fits mask h).0, pow_pos (rand_size mask))

  -- The number before it is reduced: the random part is added twice.
  pub generate_index_value :
      (nanos mask : ℕ)
      → mask < 128
      → generate_index rand nanos mask
        ≡ ok ((nanos * 2 ^ rand_size mask + 2 * rand (rand_limit mask)) % 2 ^ mask)
  unfolding generate_index
  generate_index_value nanos mask h =
      let r = rand (rand_limit mask) in
      let or = bit_or-shifted (rand_size mask) nanos r (omega (arith, drawn_lt mask h)) in
      let small : leb 128 mask ≡ false = ground arith in
      rw small (ap (λ (x : ℕ). ok (x % 2 ^ mask)) (omega (arith, or)))

  -- For every network of less than 2 ^ 128 hosts and every random source, `generateIndex` returns a
  -- number below the number of hosts.
  pub generate_index-lt-big_max :
      (nanos mask : ℕ)
      → mask < 128
      → (i : ℕ) × (generate_index rand nanos mask ≡ ok i) × (i < big_max mask)
  unfolding big_max
  generate_index-lt-big_max nanos mask h =
      (_, generate_index_value nanos mask h, mod-lt _ (pow_pos mask))

  even_part : (s n r : ℕ) → 1 ≤ s → (n * 2 ^ s + 2 * r) % 2 ≡ 0
  even_part zero n r h = absurd (omega arith)
  even_part (suc s) n r h =
      let e : n * 2 ^ suc s ≡ 2 * (n * 2 ^ s) = rw (pow-suc 2 s) (omega arith) in omega (arith, e)

  even_mod : (k x : ℕ) → 1 ≤ k → x % 2 ≡ 0 → x % 2 ^ k % 2 ≡ 0
  even_mod zero x h e = absurd (omega arith)
  even_mod (suc k) x h e =
      let p = pow-suc 2 k in
      let d = div-add-mod x (2 ^ suc k) in
      let q : x / 2 ^ suc k * 2 ^ suc k ≡ 2 * (x / 2 ^ suc k * 2 ^ k) = rw p (omega arith) in
      omega (arith, d, q)

  -- In every network of at least two hosts the number is even: the random part is or-ed into the low
  -- bits and then added once more, so that no odd host is ever chosen.
  pub generate_index-even :
      (nanos mask : ℕ)
      → 1 ≤ mask
      → mask < 128
      → (i : ℕ) × (generate_index rand nanos mask ≡ ok i) × (i % 2 ≡ 0)
  generate_index-even nanos mask low h =
      let s = rand_size mask in
      (
        _,
        generate_index_value nanos mask h,
        even_mod mask _ low (even_part s nanos (rand (rand_limit mask)) (rand_size_pos mask)),
      )

-- A network of 2 ^ 128 hosts or more makes it panic, whatever the time and the random source.
pub generate_index_panics :
    (rand : ℕ → ℕ) (nanos mask : ℕ)
    → 128 ≤ mask
    → generate_index rand nanos mask ≡ panic (bytes "mask too large")
unfolding generate_index
generate_index_panics rand nanos mask h = let large : leb 128 mask ≡ true = ground arith in rw large
