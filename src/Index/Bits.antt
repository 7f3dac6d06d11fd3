-- ===== src/Index/Bits.antt =====
-- The bitwise or of a shifted number and one that fits below it is their sum.
use Prim.Native.Nat.{bit_or, bit_or-bitwise, digits}
use wga.Base.{ℕ, zero, suc, ◌+◌, ◌*◌, ◌/◌, ◌%◌, ◌^◌, ◌≤◌, ◌<◌, max, ◌≡◌, refl, arith, ap}
use native.Mathlib.Nat.{pow-suc}

or_digits_fuel :
    (n m a b : ℕ) → a ≤ n → a ≤ m → digits (λ b. b) max n a b ≡ digits (λ b. b) max m a b
or_digits_fuel zero zero a b p q = refl
or_digits_fuel zero (suc m) zero b p q = refl
or_digits_fuel zero (suc m) (suc a) b p q = absurd (omega arith)
or_digits_fuel (suc n) zero zero b p q = refl
or_digits_fuel (suc n) zero (suc a) b p q = absurd (omega arith)
or_digits_fuel (suc n) (suc m) zero b p q = refl
or_digits_fuel (suc n) (suc m) (suc a) b p q =
    omega (arith, or_digits_fuel n m (suc a / 2) (b / 2) (omega arith) (omega arith))

zero-bit_or : (b : ℕ) → bit_or 0 b ≡ b
zero-bit_or b = bit_or-bitwise 0 b

or_step : (a b : ℕ) → bit_or a b ≡ bit_or (a / 2) (b / 2) * 2 + max (a % 2) (b % 2)
or_step zero b = omega (arith, zero-bit_or b, zero-bit_or (b / 2))
or_step (suc a) b = omega (
  arith,
  bit_or-bitwise (suc a) b,
  bit_or-bitwise (suc a / 2) (b / 2),
  or_digits_fuel a (suc a / 2) (suc a / 2) (b / 2) (omega arith) (omega arith),
)

bit_or-zero_below : (n a : ℕ) → a ≤ n → bit_or a 0 ≡ a
bit_or-zero_below n zero h = refl
bit_or-zero_below zero (suc a) h = absurd (omega arith)
bit_or-zero_below (suc n) (suc a) h =
    omega (arith, or_step (suc a) 0, bit_or-zero_below n (suc a / 2) (omega arith))

pub bit_or-shifted : (s a r : ℕ) → r < 2 ^ s → bit_or (a * 2 ^ s) r ≡ a * 2 ^ s + r
bit_or-shifted zero a r h =
    let e : r ≡ 0 = omega arith in
    let unit : a * 2 ^ 0 ≡ a = omega arith in
    rw e (omega (arith, ap (λ (t : ℕ). bit_or t 0) unit, bit_or-zero_below a a (omega arith)))
bit_or-shifted (suc s) a r h =
    let p = pow-suc 2 s in
    let double : a * 2 ^ suc s ≡ a * 2 ^ s * 2 = rw p (omega arith) in
    let half : a * 2 ^ suc s / 2 ≡ a * 2 ^ s = omega arith in
    omega (
      arith,
      double,
      or_step (a * 2 ^ suc s) r,
      ap (λ (t : ℕ). bit_or t (r / 2)) half,
      bit_or-shifted s a (r / 2) (omega arith),
    )
