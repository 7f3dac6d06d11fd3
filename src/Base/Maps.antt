-- ===== src/Base/Maps.antt =====
-- Go's `map[string]V` as an association list. A write to a present key keeps its place; the order in
-- which a `range` visits the entries is a parameter of the code that ranges.
use mathlib.Core.Path.{◌≡◌, refl, sym, ap, ◌∙◌}
use mathlib.Core.Logic.{◌≢◌, inl, inr}
use mathlib.Core.Option.{Option, none, some}
use mathlib.Core.List.{List, [], ◌∷◌, Memᴰ}
use native.Mathlib.Omega.{arith}
use wga.Base.Tests.{if◌then◌else◌, Bool-cases}
use wga.Base.Strings.{Bytes, bytes_eq, bytes_eq_iff}

abbrev pub Assoc {ℓ} : Type ℓ → Type ℓ
Assoc V = List (Bytes × V)

module _ {ℓ} {V : Type ℓ} where
  -- `v, ok := m[k]`
  unfoldable pub lookup : Bytes → Assoc V → Option V
  lookup k [] = none
  lookup k ((j, v) ∷ m) = if bytes_eq j k then some v else lookup k m

  -- `m[k] = v`
  unfoldable pub insert : Bytes → V → Assoc V → Assoc V
  insert k v [] = (k, v) ∷ []
  insert k v ((j, w) ∷ m) = if bytes_eq j k then (k, v) ∷ m else (j, w) ∷ insert k v m

  -- `delete(m, k)`
  unfoldable pub delete : Bytes → Assoc V → Assoc V
  delete k [] = []
  delete k ((j, w) ∷ m) = let rest = delete k m in if bytes_eq j k then rest else (j, w) ∷ rest

  pub lookup-insert :
      (k j : Bytes) (v : V) (m : Assoc V)
      → lookup j (insert k v m) ≡ (if bytes_eq k j then some v else lookup j m)
  unfolding lookup insert
  lookup-insert k j v [] = refl
  lookup-insert k j v ((i, w) ∷ m) =
      ground (arith, bytes_eq_iff k j, bytes_eq_iff i k, bytes_eq_iff i j, lookup-insert k j v m)

  pub lookup-delete :
      (k j : Bytes) (m : Assoc V)
      → lookup j (delete k m) ≡ (if bytes_eq k j then none else lookup j m)
  unfolding lookup delete
  lookup-delete k j [] = ground arith
  lookup-delete k j ((i, w) ∷ m) =
      ground (arith, bytes_eq_iff k j, bytes_eq_iff i k, bytes_eq_iff i j, lookup-delete k j m)

  -- No entry has the key `k`.
  abbrev pub Lacks : Bytes → Assoc V → Type 0
  Lacks k [] = Unit
  Lacks k ((j, v) ∷ m) = (j ≢ k) × Lacks k m

  -- The keys are pairwise distinct.
  abbrev pub IsMap : Assoc V → Type 0
  IsMap [] = Unit
  IsMap ((k, v) ∷ m) = Lacks k m × IsMap m

  pub Lacks-insert :
      (k j : Bytes) (v : V) (m : Assoc V) → k ≢ j → Lacks j m → Lacks j (insert k v m)
  unfolding insert
  Lacks-insert k j v [] ne h = (ne, tt)
  Lacks-insert k j v ((i, w) ∷ m) ne h =
      ground (arith, bytes_eq_iff i k, Lacks-insert k j v m ne h.1)

  pub IsMap-insert : (k : Bytes) (v : V) (m : Assoc V) → IsMap m → IsMap (insert k v m)
  unfolding insert
  IsMap-insert k v [] h = (tt, tt)
  IsMap-insert k v ((i, w) ∷ m) (l, h) =
      ground (arith, bytes_eq_iff i k, IsMap-insert k v m h, Lacks-insert k i v m)

  pub Lacks-delete : (k j : Bytes) (m : Assoc V) → Lacks j m → Lacks j (delete k m)
  unfolding delete
  Lacks-delete k j [] h = h
  Lacks-delete k j ((i, w) ∷ m) h = ground (arith, Lacks-delete k j m h.1)

  pub IsMap-delete : (k : Bytes) (m : Assoc V) → IsMap m → IsMap (delete k m)
  unfolding delete
  IsMap-delete k [] h = h
  IsMap-delete k ((i, w) ∷ m) (l, h) = ground (arith, IsMap-delete k m h, Lacks-delete k i m l)

  pub lookup-Lacks : (k : Bytes) (m : Assoc V) → Lacks k m → lookup k m ≡ none
  unfolding lookup
  lookup-Lacks k [] h = refl
  lookup-Lacks k ((i, w) ∷ m) h = ground (arith, bytes_eq_iff i k, lookup-Lacks k m h.1)

  Lacks-member : (k : Bytes) (e : Bytes × V) (m : Assoc V) → Lacks k m → Memᴰ e m → k ≢ e.0
  Lacks-member k e [] h l same = elim l [ ]
  Lacks-member k e ((i, w) ∷ m) h (Memᴰ.head s) same = h.0 (sym (same ∙ ap (λ p. p.0) s))
  Lacks-member k e ((i, w) ∷ m) h (Memᴰ.tail l) same = Lacks-member k e m h.1 l same

  -- Each entry of a map is what its key is looked up as.
  pub lookup-mem : (e : Bytes × V) (m : Assoc V) → IsMap m → Memᴰ e m → lookup e.0 m ≡ some e.1
  unfolding lookup
  lookup-mem e [] h l = elim l [ ]
  lookup-mem e ((i, w) ∷ m) (l, h) (Memᴰ.head s) =
      let key : e.0 ≡ i = ap (λ p. p.0) s in
      rw ((bytes_eq_iff i e.0).1 (sym key)) (ap (λ p. some p.1) (sym s))
  lookup-mem e ((i, w) ∷ m) (l, h) (Memᴰ.tail n) =
      let rest = lookup-mem e m h n in
      let differs = Lacks-member i e m l n in ground (arith, bytes_eq_iff i e.0, rest, differs)

  -- What is looked up is an entry.
  pub mem-lookup : (k : Bytes) (v : V) (m : Assoc V) → lookup k m ≡ some v → Memᴰ (k, v) m
  unfolding lookup
  mem-lookup k v [] e = cc
  mem-lookup k v ((i, w) ∷ m) e = elim (Bool-cases (bytes_eq i k)) [
    | inl same ↦
        let key : i ≡ k = (bytes_eq_iff i k).0 same in
        let value : w ≡ v = cc (simp same at e) in rw (key, value) (Memᴰ.head refl)
    | inr differs ↦ Memᴰ.tail (mem-lookup k v m (simp differs at e))
  ]
