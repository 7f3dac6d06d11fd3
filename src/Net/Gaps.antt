-- ===== src/Net/Gaps.antt =====
-- The groups around `::` are read as they were printed.
use wga.Base.{
  ℕ, zero, suc, ◌+◌, ◌/◌, ◌%◌, ◌<◌, ◌≤◌, none, some, List, [], ◌∷◌, ◌++◌, Bytes, arith, ◌≡◌, refl,
  sym, ap, ◌∙◌, length, All,
}
use wga.Net.Parse.{next, after_colon, v6_rounds, gap, after_group}
use wga.Net.Print.{hex_digits, colon_groups}
use wga.Net.Hex.{bound}
use wga.Net.Groups.{
  StartsPlain, StartsPlain-++, colon_groups-StartsPlain, bytes_of, round, rounds_ended, next_colon,
  colon-IsStop,
}
use mathlib.Core.List.{append_assoc, append-nil}

next_gap : (s : Bytes) → StartsPlain s → next (58 ∷ 58 ∷ s) ≡ gap s
unfolding next after_colon
next_gap s (c, r, e, plain) = rw e refl

-- What stands after the gap, if anything
after_gap :
    (k : ℕ) (ip ip' : Bytes) (s : Bytes) (hs : List ℕ)
    → All (λ x. x < bound 4) hs
    → length hs ≤ k
    → after_group (v6_rounds k) ip ip' none s (next (58 ∷ 58 ∷ colon_groups hs))
      ≡ some (ip' ++ bytes_of hs, some (length ip'), [])
unfolding after_group next after_colon colon_groups
after_gap k ip ip' s [] h n = ap (λ x. some (x, some (length ip'), [])) (sym (append-nil ip'))
after_gap k ip ip' s (x ∷ hs) h n =
    ap (after_group (v6_rounds k) ip ip' none s)
      (next_gap (colon_groups (x ∷ hs)) (colon_groups-StartsPlain x hs))
    ∙ rounds_ended k ip' (some (length ip')) x hs h n

pub rounds_gap :
    (k : ℕ) (ip : Bytes) (g : ℕ) (gs hs : List ℕ)
    → All (λ x. x < bound 4) (g ∷ gs)
    → All (λ x. x < bound 4) hs
    → length (g ∷ gs) + length hs ≤ k
    → v6_rounds k ip none (colon_groups (g ∷ gs) ++ (58 ∷ 58 ∷ colon_groups hs))
      ≡ some ((ip ++ bytes_of (g ∷ gs)) ++ bytes_of hs, some (length (ip ++ bytes_of (g ∷ gs))), [])
unfolding colon_groups after_group
rounds_gap zero ip g gs hs p q n = absurd (omega (arith, n))
rounds_gap (suc k) ip g [] hs (p, ps) q n =
    round k ip none g (58 ∷ 58 ∷ colon_groups hs) p (colon-IsStop (58 ∷ colon_groups hs))
    ∙ after_gap k ip (ip ++ (g / 256 ∷ g % 256 ∷ []))
        (hex_digits 4 g ++ (58 ∷ 58 ∷ colon_groups hs)) hs q (omega (arith, n))
rounds_gap (suc k) ip g (x ∷ gs) hs (p, ps) q n =
    let tail = 58 ∷ 58 ∷ colon_groups hs in
    let rest = colon_groups (x ∷ gs) ++ tail in
    ap (v6_rounds (suc k) ip none) (append_assoc (hex_digits 4 g) (58 ∷ colon_groups (x ∷ gs)) tail)
    ∙ round k ip none g (58 ∷ rest) p (colon-IsStop rest)
    ∙ ap
        (after_group (v6_rounds k) ip (ip ++ (g / 256 ∷ g % 256 ∷ [])) none
          (hex_digits 4 g ++ (58 ∷ rest)))
        (next_colon rest
          (StartsPlain-++ (colon_groups (x ∷ gs)) tail (colon_groups-StartsPlain x gs)))
    ∙ rounds_gap k (ip ++ (g / 256 ∷ g % 256 ∷ [])) x gs hs ps q (omega (arith, n))
    ∙ ap (λ b. some (b ++ bytes_of hs, some (length b), []))
        (append_assoc ip (g / 256 ∷ g % 256 ∷ []) (bytes_of (x ∷ gs)))
