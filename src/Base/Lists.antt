-- ===== src/Base/Lists.antt =====
-- Lists measured by native numbers, and predicates on lists that compute.
use Prim.Native.Nat.{ℕ, zero, suc, ◌+◌}
use mathlib.Core.Path.{◌≡◌, refl, sym, ap, ◌∙◌}
use mathlib.Core.Logic.{◌⊎◌, inl, inr}
use wga.Base.Tests.{Bool-cases}
use mathlib.Core.Bool.{Bool, true, false, ◌||◌, ◌&&◌}
use mathlib.Core.List.{List, [], ◌∷◌, ◌++◌, Memᴰ}
use mathlib.Core.Option.{Option, none, some}
use native.Mathlib.Omega.{arith}

module _ {ℓ} {A : Type ℓ} where
  abbrev pub length : List A → ℕ
  length [] = 0
  length (x ∷ xs) = suc (length xs)

  abbrev pub is_empty : List A → Bool
  is_empty [] = true
  is_empty (_ ∷ _) = false

  abbrev pub take : ℕ → List A → List A
  take zero xs = []
  take (suc n) [] = []
  take (suc n) (x ∷ xs) = x ∷ take n xs

  abbrev pub drop : ℕ → List A → List A
  drop zero xs = xs
  drop (suc n) [] = []
  drop (suc n) (x ∷ xs) = drop n xs

  abbrev pub replicate : ℕ → A → List A
  replicate zero a = []
  replicate (suc n) a = a ∷ replicate n a

  abbrev pub get_elem? : List A → ℕ → Option A
  get_elem? [] i = none
  get_elem? (x ∷ xs) zero = some x
  get_elem? (x ∷ xs) (suc i) = get_elem? xs i

  -- The library's `any` and `all` do not run.
  abbrev pub any : (A → Bool) → List A → Bool
  any p [] = false
  any p (x ∷ xs) = p x || any p xs

  abbrev pub all : (A → Bool) → List A → Bool
  all p [] = true
  all p (x ∷ xs) = p x && all p xs

  abbrev pub keep_if : (A → Bool) → List A → List A
  keep_if p [] = []
  keep_if p (x ∷ xs) = let rest = keep_if p xs in elim (p x) [ true ↦ x ∷ rest | false ↦ rest ]

  abbrev pub All {κ} : (A → Type κ) → List A → Type κ
  All P [] = Unit
  All P (x ∷ xs) = P x × All P xs

  pub length-append : (xs ys : List A) → length (xs ++ ys) ≡ length xs + length ys
  length-append [] ys = omega arith
  length-append (x ∷ xs) ys = omega (arith, length-append xs ys)

  pub All-append {κ} : (P : A → Type κ) (xs ys : List A) → All P xs → All P ys → All P (xs ++ ys)
  All-append P [] ys p q = q
  All-append P (x ∷ xs) ys (p, ps) q = (p, All-append P xs ys ps q)

module _ {ℓ} {A : Type ℓ} {x : A} where
  pub mem-append_left : {xs : List A} (ys : List A) → Memᴰ x xs → Memᴰ x (xs ++ ys)
  mem-append_left ys (Memᴰ.head e) = Memᴰ.head e
  mem-append_left ys (Memᴰ.tail m) = Memᴰ.tail (mem-append_left ys m)

  pub mem-append_right : (xs : List A) {ys : List A} → Memᴰ x ys → Memᴰ x (xs ++ ys)
  mem-append_right [] m = m
  mem-append_right (y ∷ xs) m = Memᴰ.tail (mem-append_right xs m)

  pub mem-append_cases : (xs : List A) {ys : List A} → Memᴰ x (xs ++ ys) → Memᴰ x xs ⊎ Memᴰ x ys
  mem-append_cases [] m = inr m
  mem-append_cases (y ∷ xs) (Memᴰ.head e) = inl (Memᴰ.head e)
  mem-append_cases (y ∷ xs) (Memᴰ.tail m) = elim (mem-append_cases xs m) [
    | inl a ↦ inl (Memᴰ.tail a)
    | inr b ↦ inr b
  ]

  pub mem-keep_if : (p : A → Bool) (xs : List A) → Memᴰ x (keep_if p xs) → Memᴰ x xs × (p x ≡ true)
  mem-keep_if p [] m = elim m [ ]
  mem-keep_if p (y ∷ xs) m = go (p y) refl (mem-keep_if p xs) m
    where
      go :
          (b : Bool)
          → p y ≡ b
          → (Memᴰ x (keep_if p xs) → Memᴰ x xs × (p x ≡ true))
          → Memᴰ x (elim b [ true ↦ y ∷ keep_if p xs | false ↦ keep_if p xs ])
          → Memᴰ x (y ∷ xs) × (p x ≡ true)
      go true e ih (Memᴰ.head s) = (Memᴰ.head s, ap p s ∙ e)
      go true e ih (Memᴰ.tail n) = (Memᴰ.tail (ih n).0, (ih n).1)
      go false e ih n = (Memᴰ.tail (ih n).0, (ih n).1)

  pub mem_keep_if_of_true :
      (p : A → Bool) (xs : List A) → Memᴰ x xs → p x ≡ true → Memᴰ x (keep_if p xs)
  mem_keep_if_of_true p [] m t = elim m [ ]
  mem_keep_if_of_true p (y ∷ xs) (Memᴰ.head s) t = rw (ap p (sym s) ∙ t, keep_if) (Memᴰ.head s)
  mem_keep_if_of_true p (y ∷ xs) (Memᴰ.tail m) t = elim (Bool-cases (p y)) [
    | inl e ↦ rw (e, keep_if) (Memᴰ.tail (mem_keep_if_of_true p xs m t))
    | inr e ↦ rw (e, keep_if) (mem_keep_if_of_true p xs m t)
  ]
