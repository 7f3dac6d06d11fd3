-- ===== src/Net/Runs.antt =====
-- The run of zeros that is printed as `::`.
use wga.Base.{
  ℕ, zero, suc, ◌+◌, ◌≤◌, true, false, List, [], ◌∷◌, ◌++◌, arith, ◌≡◌, refl, sym, ap, ◌∙◌, drop,
  replicate, ◌==◌, ltb, leb, if◌then◌else◌, Bool-cases, inl, inr, ◌&&◌, ◌⊎◌, subst, Bool,
}
use wga.Net.Print.{zero_run, longest_run, first_groups}

-- From `start` on there are `n` zeros.
abbrev pub HasZeros : List ℕ → ℕ × ℕ → Type 0
HasZeros gs (start, n) = gs ≡ first_groups start gs ++ (replicate n 0 ++ drop (start + n) gs)

zero_run_zero : (g : ℕ) (gs : List ℕ) → g == 0 ≡ true → zero_run (g ∷ gs) ≡ suc (zero_run gs)
unfolding zero_run
zero_run_zero g gs e = ground (arith, e)

zero_run_other : (g : ℕ) (gs : List ℕ) → g == 0 ≡ false → zero_run (g ∷ gs) ≡ 0
unfolding zero_run
zero_run_other g gs e = ground (arith, e)

zero_run-replicate : (gs : List ℕ) → gs ≡ replicate (zero_run gs) 0 ++ drop (zero_run gs) gs
unfolding zero_run
zero_run-replicate [] = refl
zero_run-replicate (g ∷ gs) = elim (Bool-cases (g == 0)) [
  | inl e ↦
      let zero_group : g ≡ 0 = ground (arith, e) in
      ap (λ x. x ∷ gs) zero_group
      ∙ ap (λ x. 0 ∷ x) (zero_run-replicate gs)
      ∙ ap (λ n. replicate n 0 ++ drop n (g ∷ gs)) (sym (zero_run_zero g gs e))
  | inr e ↦ ap (λ n. replicate n 0 ++ drop n (g ∷ gs)) (sym (zero_run_other g gs e))
]

first_groups-drop : (i : ℕ) (gs : List ℕ) → gs ≡ first_groups i gs ++ drop i gs
unfolding first_groups
first_groups-drop zero gs = refl
first_groups-drop (suc i) [] = refl
first_groups-drop (suc i) (g ∷ gs) = ap (λ x. g ∷ x) (first_groups-drop i gs)

drop_nil : (n : ℕ) → drop {A = ℕ} n [] ≡ []
drop_nil zero = refl
drop_nil (suc n) = refl

drop-drop : (i n : ℕ) (gs : List ℕ) → drop n (drop i gs) ≡ drop (i + n) gs
drop-drop zero n gs = ap (λ x. drop x gs) (omega arith)
drop-drop (suc i) n [] = drop_nil n ∙ sym (drop_nil (suc i + n))
drop-drop (suc i) n (g ∷ gs) =
    let moved : suc (i + n) ≡ suc i + n = omega arith in
    drop-drop i n gs ∙ ap (λ x. drop x (g ∷ gs)) moved

drop_next : (i g : ℕ) (gs all : List ℕ) → drop i all ≡ g ∷ gs → drop (i + 1) all ≡ gs
drop_next i g gs all e = sym (drop-drop i 1 all) ∙ ap (drop 1) e

choice :
    (P : ℕ × ℕ → Type 0) (b c : Bool) (new best : ℕ × ℕ)
    → (b ≡ true → P new)
    → P best
    → P (if b && c then new else best)
choice P true true new best h k = h refl
choice P true false new best h k = k
choice P false c new best h k = k

-- What holds of the best run so far and of each run of at least two zeros holds of the result.
longest_run-satisfies :
    (P : ℕ × ℕ → Type 0) (all : List ℕ)
    → ((j : ℕ) → leb 2 (zero_run (drop j all)) ≡ true → P (j, zero_run (drop j all)))
    → (i : ℕ) (best : ℕ × ℕ) (gs : List ℕ) → drop i all ≡ gs
    → P best
    → P (longest_run i best gs)
unfolding longest_run
longest_run-satisfies P all each i best [] at h = h
longest_run-satisfies P all each i best (g ∷ gs) at h =
    longest_run-satisfies P all each (i + 1) _ gs (drop_next i g gs all at) (
      choice P (leb 2 (zero_run (g ∷ gs))) (ltb best.1 (zero_run (g ∷ gs))) (i, zero_run (g ∷ gs))
        best (subst (λ x. leb 2 (zero_run x) ≡ true → P (i, zero_run x)) at (each i)) h)

-- The printed run consists of zeros, at least two unless it is empty.
pub longest_run-HasZeros :
    (gs : List ℕ)
    → HasZeros gs (longest_run 0 (0, 0) gs)
      × (((longest_run 0 (0, 0) gs).1 ≡ 0) ⊎ (2 ≤ (longest_run 0 (0, 0) gs).1))
unfolding first_groups
longest_run-HasZeros gs =
    longest_run-satisfies (λ r. HasZeros gs r × ((r.1 ≡ 0) ⊎ (2 ≤ r.1))) gs
      (λ j long. (
        first_groups-drop j gs
            ∙ ap (λ x. first_groups j gs ++ x) (zero_run-replicate (drop j gs))
            ∙ ap (λ x. first_groups j gs ++ (replicate (zero_run (drop j gs)) 0 ++ x))
                (drop-drop j (zero_run (drop j gs)) gs),
        inr (ground (arith, long)),
      ))
      0 (0, 0) gs refl (refl, inl refl)
