-- ===== src/Index/Distinct.antt =====
-- Numbers that `generateIndex` makes at different times.
use wga.Base.{ℕ, zero, suc, ◌+◌, ◌*◌, ◌%◌, ◌^◌, ◌≤◌, ◌<◌, ◌≡◌, arith, ◌≢◌, ap, sym, ok, ◌∙◌}
use wga.Index.Bounds.{IsRandom, drawn_lt, generate_index_value}
use wga.Index.{generate_index, rand_size, rand_limit}
use native.Mathlib.Nat.{mod-eq_of_lt, mul-le-mul_right, zero-add, suc-add, pow-suc}

pow-add : (j k : ℕ) → 2 ^ (j + k) ≡ 2 ^ j * 2 ^ k
pow-add zero k = rw (zero-add) (omega arith)
pow-add (suc j) k = rw (suc-add, pow-suc 2 (j + k), pow-suc 2 j, pow-add j k) (omega arith)

-- The time and the random part fit below the modulus.
fits_below : (n r p : ℕ) → n < 2 ^ 63 → r + 1 < p → n * p + 2 * r < 2 ^ 64 * p
fits_below n r p h q = let below : (n + 1) * p ≤ 2 ^ 63 * p = grind arith in omega (arith, below)

apart : (n m r q p : ℕ) → n + 2 ≤ m → r + 1 < p → n * p + 2 * r < m * p + 2 * q
apart n m r q p h k = let above : (n + 2) * p ≤ m * p = mul-le-mul_right p h in omega (arith, above)

ok-injective : {a b : ℕ} → ok a ≡ ok b → a ≡ b
ok-injective e = cc

split_mask : (mask : ℕ) → 80 ≤ mask → 64 + rand_size mask ≡ mask
unfolding rand_size
split_mask mask low = omega arith

reduced : (x x' m : ℕ) → x < m → x' < m → x < x' → x % m ≢ x' % m
reduced x x' m h h' l = rw (mod-eq_of_lt h, mod-eq_of_lt h') (omega arith)

module _ (rand rand' : ℕ → ℕ) (random : IsRandom rand) (random' : IsRandom rand') where
  -- In a network with 80 to 127 host bits, two calls at least two nanoseconds apart, both within the
  -- range of the clock, return different numbers, whatever the random source gives them.
  pub generate_index-distinct :
      (nanos nanos' mask : ℕ)
      → 80 ≤ mask
      → mask < 128
      → nanos + 2 ≤ nanos'
      → nanos' < 2 ^ 63
      → generate_index rand nanos mask ≢ generate_index rand' nanos' mask
  generate_index-distinct nanos nanos' mask low h later range e =
      let s = rand_size mask in
      let p = 2 ^ s in
      let r = rand (rand_limit mask) in
      let r' = rand' (rand_limit mask) in
      let total : 2 ^ 64 * p ≡ 2 ^ mask =
        sym (pow-add 64 s) ∙ ap (λ (k : ℕ). 2 ^ k) (split_mask mask low) in
      let small = fits_below nanos r p (omega arith) (drawn_lt rand random mask h) in
      let small' = fits_below nanos' r' p range (drawn_lt rand' random' mask h) in
      let same : (nanos * p + 2 * r) % 2 ^ mask ≡ (nanos' * p + 2 * r') % 2 ^ mask = ok-injective (
        sym (generate_index_value rand random nanos mask h)
        ∙ (e ∙ generate_index_value rand' random' nanos' mask h)) in
      reduced (nanos * p + 2 * r) (nanos' * p + 2 * r') (2 ^ mask) (omega (arith, small, total))
        (omega (arith, small', total))
        (apart nanos nanos' r r' p later (drawn_lt rand random mask h)) same
