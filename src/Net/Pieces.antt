-- ===== src/Net/Pieces.antt =====
-- The parts of an IPv6 address that is parsed as it was printed.
use wga.Base.{
  ℕ, zero, suc, ◌+◌, ◌-◌, ◌*◌, ◌/◌, ◌%◌, ◌<◌, Bool, true, false, none, some, List, [], ◌∷◌, ◌++◌,
  Bytes, arith, ◌≡◌, refl, ap, ◌∙◌, length, length-append, All, take, drop, replicate, ◌==◌,
  if◌then◌else◌, ◌&&◌, ltb,
}
use wga.Net.Parse.{parse_addr, parse_v6, family, v6_rounds, v6_finish, v6, ◌>>=◌}
use wga.Net.Print.{hex_digits, colon_groups, groups}
use wga.Net.Hex.{bound}
use wga.Net.Groups.{IsPlain, StartsPlain, bytes_of, hex_digits-IsPlain}
use mathlib.Core.List.{append_assoc}
use mathlib.Core.Path.{ap₂}

-- Before the first colon there is no dot.
abbrev pub HasColon : Bytes → Type 0
HasColon s = (p : Bytes) × (r : Bytes) × (s ≡ p ++ (58 ∷ r)) × All IsPlain p

pub family_plain :
    (whole p r : Bytes)
    → All IsPlain p
    → family whole (p ++ (58 ∷ r)) ≡ (parse_v6 whole >>= λ a. some (v6 a))
unfolding family
family_plain whole [] r h = refl
family_plain whole (c ∷ p) r (plain, h) = ground (arith, plain.0, plain.1, family_plain whole p r h)

pub parse_addr-v6 :
    (s : Bytes) (a : Bytes) → HasColon s → parse_v6 s ≡ some a → parse_addr s ≡ some (v6 a)
unfolding parse_addr
parse_addr-v6 s a (p, r, e, plain) parsed =
    ap (family s) e ∙ family_plain s p r plain ∙ ap (λ o. o >>= λ x. some (v6 x)) parsed

pub colon_groups-HasColon :
    (g : ℕ) (gs : List ℕ) (t : Bytes) → HasColon (colon_groups (g ∷ gs) ++ (58 ∷ t))
unfolding colon_groups
colon_groups-HasColon g [] t = (hex_digits 4 g, t, refl, hex_digits-IsPlain 4 g)
colon_groups-HasColon g (h ∷ gs) t = (
  hex_digits 4 g,
  colon_groups (h ∷ gs) ++ (58 ∷ t),
  append_assoc (hex_digits 4 g) (58 ∷ colon_groups (h ∷ gs)) (58 ∷ t),
  hex_digits-IsPlain 4 g,
)

pub else_branch : {A : Type 0} (b : Bool) (x y : A) → b ≡ false → (if b then x else y) ≡ y
else_branch b x y e = rw e refl

-- A text that starts with a digit is read by the loop.
pub parse_v6-StartsPlain :
    (s : Bytes) → StartsPlain s → 1 < length s → parse_v6 s ≡ (v6_rounds 8 [] none s >>= v6_finish)
unfolding parse_v6
parse_v6-StartsPlain [] starts long = absurd (omega (arith, long))
parse_v6-StartsPlain (c ∷ []) starts long = absurd (omega (arith, long))
parse_v6-StartsPlain (c ∷ d ∷ s) (x, r, e, plain) long =
    else_branch (c == 58 && d == 58) _ (v6_rounds 8 [] none (c ∷ d ∷ s) >>= v6_finish)
      (ground (arith, e, plain.0))

take-++ : (s t : Bytes) → take (length s) (s ++ t) ≡ s
take-++ [] t = refl
take-++ (c ∷ s) t = ap (λ x. c ∷ x) (take-++ s t)

drop-++ : (s t : Bytes) → drop (length s) (s ++ t) ≡ t
drop-++ [] t = refl
drop-++ (c ∷ s) t = drop-++ s t

-- The gap becomes the bytes that are missing.
pub v6_finish-gap :
    (s t : Bytes)
    → length s + length t < 16
    → v6_finish (s ++ t, some (length s), [])
      ≡ some (s ++ (replicate (16 - (length s + length t)) 0 ++ t))
unfolding v6_finish
v6_finish-gap s t h =
    let short : ltb (length (s ++ t)) 16 ≡ true = ground (arith, h, length-append s t) in
    rw (short, take-++ s t, drop-++ s t, length-append s t) refl

pub length-bytes_of : (gs : List ℕ) → length (bytes_of gs) ≡ length gs + length gs
length-bytes_of [] = omega arith
length-bytes_of (g ∷ gs) = omega (arith, length-bytes_of gs)

pub bytes_of-++ : (gs hs : List ℕ) → bytes_of (gs ++ hs) ≡ bytes_of gs ++ bytes_of hs
bytes_of-++ [] hs = refl
bytes_of-++ (g ∷ gs) hs = ap (λ x. g / 256 ∷ g % 256 ∷ x) (bytes_of-++ gs hs)

pub bytes_of-replicate : (n : ℕ) → bytes_of (replicate n 0) ≡ replicate (n + n) 0
bytes_of-replicate zero = refl
bytes_of-replicate (suc n) =
    let twice : suc (suc (n + n)) ≡ suc n + suc n = omega arith in
    ap (λ x. 0 ∷ 0 ∷ x) (bytes_of-replicate n) ∙ ap (λ m. replicate m 0) twice

pub bytes_of-groups :
    (ip : Bytes) (k : ℕ)
    → length ip ≡ k * 2
    → All (λ b. b < 256) ip
    → (bytes_of (groups ip) ≡ ip) × (length (groups ip) ≡ k) × All (λ g. g < bound 4) (groups ip)
unfolding groups
bytes_of-groups [] k e h = (refl, omega (arith, e), tt)
bytes_of-groups (a ∷ []) k e h = absurd (omega (arith, e))
bytes_of-groups (a ∷ b ∷ r) zero e h = absurd (omega (arith, e))
bytes_of-groups (a ∷ b ∷ r) (suc k) e (small, (small', h)) =
    let (same, count, fits) = bytes_of-groups r k (omega (arith, e)) h in
    (
      ap (λ x. (a * 256 + b) / 256 ∷ (a * 256 + b) % 256 ∷ x) same
          ∙ ap₂ (λ x y. x ∷ y ∷ r) (omega (arith, small')) (omega (arith, small')),
      omega (arith, count),
      (omega (arith, small, small'), fits),
    )
