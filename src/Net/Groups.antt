-- ===== src/Net/Groups.antt =====
-- The groups of an IPv6 address are read as they were printed.
use wga.Base.{
  ℕ, zero, suc, ◌/◌, ◌%◌, ◌<◌, ◌≤◌, Option, none, some, List, [], ◌∷◌, ◌++◌, ltb, Bytes, arith, ◌≡◌,
  ◌≢◌, refl, sym, ap, ◌∙◌, length, Bool-cases, inl, inr, ◌==◌, if◌then◌else◌, All, ◌||◌, All-append,
}
use wga.Net.Parse.{hex_from, next, after_colon, v6_rounds, colon, hex_digit, after_group}
use wga.Net.Print.{hex_char, hex_digits, colon_groups}
use wga.Net.Hex.{bound, hex_from-hex_digits, length-hex_digits, one_digit, more_digits}
use mathlib.Core.List.{append-nil, append_assoc}

-- Neither a colon nor a dot
abbrev pub IsPlain : ℕ → Type 0
IsPlain c = (c ≢ 58) × (c ≢ 46)

abbrev pub StartsPlain : Bytes → Type 0
StartsPlain s = (c : ℕ) × (r : Bytes) × (s ≡ c ∷ r) × IsPlain c

hex_char-IsPlain : (d : ℕ) → IsPlain (hex_char d)
unfolding hex_char
hex_char-IsPlain d = ((λ e. ground (arith, e)), (λ e. ground (arith, e)))

pub hex_digits-IsPlain : (k g : ℕ) → All IsPlain (hex_digits k g)
unfolding hex_digits
hex_digits-IsPlain zero g = tt
hex_digits-IsPlain (suc k) g = elim (Bool-cases (ltb g 16)) [
  | inl small ↦ rw (one_digit k g small) (hex_char-IsPlain g, tt)
  | inr large ↦ rw (more_digits k g large) (
      All-append IsPlain (hex_digits k (g / 16)) (hex_char (g % 16) ∷ [])
        (hex_digits-IsPlain k (g / 16)) (hex_char-IsPlain (g % 16), tt))
]

pub StartsPlain-++ : (s t : Bytes) → StartsPlain s → StartsPlain (s ++ t)
StartsPlain-++ s t (c, r, e, plain) = (c, r ++ t, ap (λ x. x ++ t) e, plain)

pub hex_digits-StartsPlain : (k g : ℕ) → 0 < k → StartsPlain (hex_digits k g)
hex_digits-StartsPlain k g h =
    first (hex_digits k g) ((length-hex_digits k g).1 h) (hex_digits-IsPlain k g)
  where
    first : (s : Bytes) → 0 < length s → All IsPlain s → StartsPlain s
    first [] short all = absurd (omega (arith, short))
    first (c ∷ r) long (plain, all) = (c, r, refl, plain)

pub colon_groups-StartsPlain : (g : ℕ) (gs : List ℕ) → StartsPlain (colon_groups (g ∷ gs))
unfolding colon_groups
colon_groups-StartsPlain g [] = hex_digits-StartsPlain 4 g (omega arith)
colon_groups-StartsPlain g (h ∷ gs) =
    StartsPlain-++ (hex_digits 4 g) _ (hex_digits-StartsPlain 4 g (omega arith))

after_colon-StartsPlain : (s : Bytes) → StartsPlain s → after_colon s ≡ colon s
unfolding after_colon
after_colon-StartsPlain [] (c, r, e, plain) = absurd (cc e)
after_colon-StartsPlain (d ∷ []) (c, r, e, plain) = ground (arith, e, plain.0)
after_colon-StartsPlain (d ∷ f ∷ s) (c, r, e, plain) = ground (arith, e, plain.0)

-- The two bytes of each group
abbrev pub bytes_of : List ℕ → Bytes
bytes_of [] = []
bytes_of (g ∷ gs) = g / 256 ∷ g % 256 ∷ bytes_of gs

with_field :
    (k : ℕ) (ip : Bytes) (at : Option ℕ) (s rest : Bytes) (off g : ℕ)
    → hex_from 0 0 s ≡ (off, g, rest)
    → 0 < off
    → off ≤ 4
    → v6_rounds (suc k) ip at s
      ≡ after_group (v6_rounds k) ip (ip ++ (g / 256 ∷ g % 256 ∷ [])) at s (next rest)
unfolding v6_rounds
with_field k ip at s rest off g e positive small = chosen (hex_from 0 0 s) e
  where
    chosen :
        (r : ℕ × ℕ × Bytes)
        → r ≡ (off, g, rest)
        → (if r.0 == 0 || ltb 4 r.0
            then none
            else after_group (v6_rounds k) ip (ip ++ (r.1 / 256 ∷ r.1 % 256 ∷ [])) at s (next r.2))
          ≡ after_group (v6_rounds k) ip (ip ++ (g / 256 ∷ g % 256 ∷ [])) at s (next rest)
    chosen r h = rw h (ground (arith, positive, small))

-- A printed group, and what follows it
abbrev pub IsStop : Bytes → Type 0
IsStop s = (n v : ℕ) → hex_from n v s ≡ (n, v, s)

nothing-IsStop : IsStop []
unfolding hex_from
nothing-IsStop n v = refl

pub colon-IsStop : (s : Bytes) → IsStop (58 ∷ s)
unfolding hex_from hex_digit
colon-IsStop s n v = refl

pub round :
    (k : ℕ) (ip : Bytes) (at : Option ℕ) (g : ℕ) (rest : Bytes)
    → g < bound 4
    → IsStop rest
    → v6_rounds (suc k) ip at (hex_digits 4 g ++ rest)
      ≡ after_group
          (v6_rounds k)
          ip
          (ip ++ (g / 256 ∷ g % 256 ∷ []))
          at
          (hex_digits 4 g ++ rest)
          (next rest)
round k ip at g rest h stop =
    let (short, long) = length-hex_digits 4 g in
    with_field k ip at (hex_digits 4 g ++ rest) rest (length (hex_digits 4 g)) g
      (hex_from-hex_digits 4 g rest h ∙ stop (length (hex_digits 4 g)) g) (long (omega arith)) short

pub next_colon : (s : Bytes) → StartsPlain s → next (58 ∷ s) ≡ colon s
unfolding next
next_colon s plain = after_colon-StartsPlain s plain

-- Groups to the end
pub rounds_ended :
    (k : ℕ) (ip : Bytes) (at : Option ℕ) (g : ℕ) (gs : List ℕ)
    → All (λ x. x < bound 4) (g ∷ gs)
    → length (g ∷ gs) ≤ k
    → v6_rounds k ip at (colon_groups (g ∷ gs)) ≡ some (ip ++ bytes_of (g ∷ gs), at, [])
unfolding colon_groups after_group next
rounds_ended zero ip at g gs h n = absurd (omega (arith, n))
rounds_ended (suc k) ip at g [] (h, hs) n =
    ap (v6_rounds (suc k) ip at) (sym (append-nil (hex_digits 4 g)))
    ∙ round k ip at g [] h nothing-IsStop
rounds_ended (suc k) ip at g (x ∷ gs) (h, hs) n =
    round k ip at g (58 ∷ colon_groups (x ∷ gs)) h (colon-IsStop (colon_groups (x ∷ gs)))
    ∙ ap
        (after_group (v6_rounds k) ip (ip ++ (g / 256 ∷ g % 256 ∷ [])) at
          (hex_digits 4 g ++ (58 ∷ colon_groups (x ∷ gs))))
        (next_colon (colon_groups (x ∷ gs)) (colon_groups-StartsPlain x gs))
    ∙ rounds_ended k (ip ++ (g / 256 ∷ g % 256 ∷ [])) at x gs hs (omega (arith, n))
    ∙ ap (λ b. some (b, at, [])) (append_assoc ip (g / 256 ∷ g % 256 ∷ []) (bytes_of (x ∷ gs)))
