-- ===== src/Net/Address.antt =====
-- `net.IP`, `net.IPMask` and `net.IPNet`: an address has 4 or 16 bytes, and the empty slice is nil.
use Prim.Native.Nat.{bit_and}
use wga.Base.{
  ℕ, zero, suc, ◌+◌, ◌-◌, ◌*◌, ◌/◌, ◌^◌, Bool, true, false, ◌&&◌, Option, none, some, [], ◌∷◌, ◌==◌,
  leb, if◌then◌else◌, length, take, drop, all, is_empty, Bytes, bytes_eq,
}

abbrev pub Ip : Type 0
Ip = Bytes

pub record IpNet : Type 0 where
  pub ip : Ip
  pub mask : Bytes

-- `v4InV6Prefix`
abbrev pub v4_prefix : Bytes
v4_prefix = 0 ∷ 0 ∷ 0 ∷ 0 ∷ 0 ∷ 0 ∷ 0 ∷ 0 ∷ 0 ∷ 0 ∷ 255 ∷ 255 ∷ []

-- `ip.To4()`; nil is `[]`
unfoldable pub to4 : Ip → Ip
unfolding bytes_eq
to4 ip =
    if length ip == 4
    then ip
    else if length ip == 16 && bytes_eq (take 12 ip) v4_prefix
    then drop 12 ip
    else []

-- `ip.To4() != nil`
unfoldable pub is_v4 : Ip → Bool
unfolding to4
is_v4 ip = if is_empty (to4 ip) then false else true

-- The bytes of a mask with `ones` leading ones, `n` bytes long.
mask_bytes : ℕ → ℕ → Bytes
mask_bytes zero ones = []
mask_bytes (suc n) ones =
    (if leb 8 ones then 255 else 256 - 2 ^ (8 - ones)) ∷ mask_bytes n (ones - 8)

-- `net.CIDRMask(ones, bits)`
unfoldable pub cidr_mask : ℕ → ℕ → Bytes
unfolding mask_bytes
cidr_mask ones bits =
    if (if bits == 32 then true else bits == 128) && leb ones bits
    then mask_bytes (bits / 8) ones
    else []

-- `FullMask` of operator/wgc.go: the mask of a single host.
unfoldable pub full_mask : Ip → Bytes
unfolding is_v4 cidr_mask
full_mask ip = if is_v4 ip then cidr_mask 32 32 else cidr_mask 128 128

-- The ones at the head of a byte, if no one follows a zero.
byte_ones : ℕ → Option ℕ
byte_ones b =
    if b == 0
    then some 0
    else if b == 128
    then some 1
    else if b == 192
    then some 2
    else if b == 224
    then some 3
    else if b == 240
    then some 4
    else if b == 248
    then some 5
    else if b == 252
    then some 6
    else if b == 254
    then some 7
    else none

-- `simpleMaskLength`; its -1 is `none`
unfoldable pub simple_mask_length : Bytes → Option ℕ
unfolding byte_ones
simple_mask_length [] = some 0
simple_mask_length (b ∷ m) =
    let longer = simple_mask_length m in
    let last = byte_ones b in
    if b == 255
    then elim longer [ none ↦ none | some n ↦ some (8 + n) ]
    else if all (λ c. c == 0) m
    then last
    else none

-- `mask.Size()`: ones and bits
unfoldable pub mask_size : Bytes → ℕ × ℕ
unfolding simple_mask_length
mask_size m = elim (simple_mask_length m) [ none ↦ (0, 0) | some n ↦ (n, length m * 8) ]

-- `ip.Equal(x)`: an IPv4 address and its 16-byte form are equal.
unfoldable pub ip_equal : Ip → Ip → Bool
unfolding bytes_eq
ip_equal a b =
    if length a == length b
    then bytes_eq a b
    else if length a == 4 && length b == 16
    then bytes_eq (take 12 b) v4_prefix && bytes_eq a (drop 12 b)
    else if length a == 16 && length b == 4
    then bytes_eq (take 12 a) v4_prefix && bytes_eq (drop 12 a) b
    else false

and_bytes : Bytes → Bytes → Bytes
and_bytes (a ∷ s) (b ∷ t) = bit_and a b ∷ and_bytes s t
and_bytes _ _ = []

-- `ip.Mask(mask)`, for the mask lengths that `ParseCIDR` makes
unfoldable pub mask_ip : Ip → Bytes → Ip
unfolding and_bytes bytes_eq
mask_ip ip mask =
    let host =
      if (length mask == 4) && (length ip == 16) && bytes_eq (take 12 ip) v4_prefix
      then drop 12 ip
      else ip in
    if length host == length mask then and_bytes host mask else []
