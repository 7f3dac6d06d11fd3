-- ===== src/Net/Hex.antt =====
-- A group of an IPv6 address is read as it was printed.
use wga.Base.{
  ℕ, zero, suc, ◌+◌, ◌*◌, ◌/◌, ◌%◌, ◌<◌, ◌≤◌, true, false, some, [], ◌∷◌, ◌++◌, ltb, Bytes, arith,
  ◌≡◌, refl, sym, ap, ◌∙◌, length, length-append, Bool-cases, inl, inr,
}
use wga.Net.Parse.{hex_digit, hex_from}
use wga.Net.Print.{hex_char, hex_digits}
use mathlib.Core.List.{append_assoc}
use mathlib.Core.Path.{ap₂}

hex_digit-hex_char : (d : ℕ) → d < 16 → hex_digit (hex_char d) ≡ some d
unfolding hex_digit hex_char
hex_digit-hex_char d h = grind arith

-- The numbers that `k` digits can write
abbrev pub bound : ℕ → ℕ
bound zero = 1
bound (suc k) = 16 * bound k

hex_from-digit :
    (n v d : ℕ) (s : Bytes)
    → d < 16
    → hex_from n v (hex_char d ∷ s) ≡ hex_from (n + 1) (v * 16 + d) s
unfolding hex_from
hex_from-digit n v d s h = rw (hex_from, hex_digit-hex_char d h) refl

pub one_digit : (k g : ℕ) → ltb g 16 ≡ true → hex_digits (suc k) g ≡ hex_char g ∷ []
unfolding hex_digits
one_digit k g e = rw (hex_digits, e) refl

pub more_digits :
    (k g : ℕ)
    → ltb g 16 ≡ false
    → hex_digits (suc k) g ≡ hex_digits k (g / 16) ++ (hex_char (g % 16) ∷ [])
unfolding hex_digits
more_digits k g e = rw (hex_digits, e) refl

pub hex_from-hex_digits :
    (k g : ℕ) (s : Bytes)
    → g < bound k
    → hex_from 0 0 (hex_digits k g ++ s) ≡ hex_from (length (hex_digits k g)) g s
unfolding hex_digits
hex_from-hex_digits zero g s h = ap (λ x. hex_from 0 x s) (omega (arith, h))
hex_from-hex_digits (suc k) g s h = elim (Bool-cases (ltb g 16)) [
  | inl small ↦
      rw (one_digit k g small)
        (hex_from-digit 0 0 g s (ground (arith, small)) ∙ ap (λ x. hex_from 1 x s) (omega arith))
  | inr large ↦
      let ih = hex_from-hex_digits k (g / 16) (hex_char (g % 16) ∷ s) (omega (arith, h)) in
      rw (more_digits k g large) (
        ap (hex_from 0 0) (append_assoc (hex_digits k (g / 16)) (hex_char (g % 16) ∷ []) s)
        ∙ ih
        ∙ hex_from-digit (length (hex_digits k (g / 16))) (g / 16) (g % 16) s (omega arith)
        ∙ ap₂ (λ n v. hex_from n v s)
            (sym (length-append (hex_digits k (g / 16)) (hex_char (g % 16) ∷ []))) (omega arith))
]

pub length-hex_digits :
    (k g : ℕ) → (length (hex_digits k g) ≤ k) × ((0 < k) → 0 < length (hex_digits k g))
unfolding hex_digits
length-hex_digits zero g = (omega arith, λ h. omega (arith, h))
length-hex_digits (suc k) g = elim (Bool-cases (ltb g 16)) [
  | inl small ↦ rw (one_digit k g small) (omega arith, λ h. omega arith)
  | inr large ↦
      rw (more_digits k g large, length-append (hex_digits k (g / 16)) (hex_char (g % 16) ∷ []))
        (omega (arith, (length-hex_digits k (g / 16)).0), λ h. omega arith)
]
