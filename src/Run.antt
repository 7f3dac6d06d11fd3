-- ===== src/Run.antt =====
-- Go code that keeps a state and may end with an error, and what every run of it keeps.
use wga.Base.{Outcome, ok, err, panic, Bytes, Option, none, some, ◌≡◌, refl, ap}

abbrev pub Act : Type 0 → Type 0 → Type 0
Act S A = S → Outcome A × S

module _ {S : Type 0} where
  abbrev pub pure : {A : Type 0} → A → Act S A
  pure a s = (ok a, s)

  abbrev pub fail : {A : Type 0} → Bytes → Act S A
  fail message s = (err message, s)

  -- What is missing is an error.
  unfoldable pub require : {A : Type 0} → Bytes → Option A → Act S A
  require message none = fail message
  require message (some a) = pure a

  -- An error or a panic ends the code, with the state as it is.
  abbrev pub continue_with : {A B : Type 0} → (A → Act S B) → Outcome A × S → Outcome B × S
  continue_with k (panic why, s) = (panic why, s)
  continue_with k (err why, s) = (err why, s)
  continue_with k (ok a, s) = k a s

  infixl 5 ◌>>=◌ ◌>>◌
  unfoldable pub ◌>>=◌ : {A B : Type 0} → Act S A → (A → Act S B) → Act S B
  (m >>= k) s = continue_with k (m s)

  unfoldable pub ◌>>◌ : {A B : Type 0} → Act S A → Act S B → Act S B
  (m >> k) s = continue_with (λ _. k) (m s)

  -- Every run from a state with `I` ends in one, whatever the outcome.
  abbrev pub Keeps : {A : Type 0} → (S → Type 0) → Act S A → Type 0
  Keeps I act = (s : S) → I s → I (act s).1

  pub continue_with-Keeps :
      {A B : Type 0} (I : S → Type 0) (k : A → Act S B) (r : Outcome A × S)
      → ((a : A) → Keeps I (k a))
      → I r.1
      → I (continue_with k r).1
  continue_with-Keeps I k (panic why, s) h i = i
  continue_with-Keeps I k (err why, s) h i = i
  continue_with-Keeps I k (ok a, s) h i = h a s i

  pub >>=-Keeps :
      {A B : Type 0} (I : S → Type 0) (m : Act S A) (k : A → Act S B)
      → Keeps I m
      → ((a : A) → Keeps I (k a))
      → Keeps I (m >>= k)
  unfolding ◌>>=◌
  >>=-Keeps I m k h g s i = continue_with-Keeps I k (m s) g (h s i)

  pub >>-Keeps :
      {A B : Type 0} (I : S → Type 0) (m : Act S A) (k : Act S B)
      → Keeps I m
      → Keeps I k
      → Keeps I (m >> k)
  unfolding ◌>>◌
  >>-Keeps I m k h g s i = continue_with-Keeps I (λ _. k) (m s) (λ _. g) (h s i)

  pub require-Keeps :
      {A B : Type 0} (I : S → Type 0) (message : Bytes) (o : Option A) (k : A → Act S B)
      → ((a : A) → o ≡ some a → Keeps I (k a))
      → Keeps I (require message o >>= k)
  unfolding require ◌>>=◌
  require-Keeps I message none k h s i = i
  require-Keeps I message (some a) k h s i = h a refl s i

  -- The two steps of code that returned.
  pub >>=-returns :
      {A B : Type 0} (m : Act S A) (k : A → Act S B) (s : S) (b : B) (s' : S)
      → (m >>= k) s ≡ (ok b, s')
      → (a : A) × (t : S) × (m s ≡ (ok a, t)) × (k a t ≡ (ok b, s'))
  unfolding ◌>>=◌
  >>=-returns {A} {B} m k s b s' e = go (m s) e
    where
      go :
          (r : Outcome A × S)
          → continue_with k r ≡ (ok b, s')
          → (a : A) × (t : S) × (r ≡ (ok a, t)) × (k a t ≡ (ok b, s'))
      go (panic why, t) e = cc
      go (err why, t) e = cc
      go (ok a, t) e = (a, t, refl, e)

  pub >>-returns :
      {A B : Type 0} (m : Act S A) (k : Act S B) (s : S) (b : B) (s' : S)
      → (m >> k) s ≡ (ok b, s')
      → (a : A) × (t : S) × (m s ≡ (ok a, t)) × (k t ≡ (ok b, s'))
  unfolding ◌>>◌ ◌>>=◌
  >>-returns m k s b s' e = >>=-returns m (λ _. k) s b s' e

  pub after-returns :
      {A B : Type 0} (m : Act S A) (k : A → Act S B) (s : S) (a : A) (t : S)
      → m s ≡ (ok a, t)
      → (m >>= k) s ≡ k a t
  unfolding ◌>>=◌
  after-returns m k s a t e = ap (continue_with k) e

  pub require-returns :
      {A B : Type 0} (message : Bytes) (o : Option A) (k : A → Act S B) (s : S) (b : B) (s' : S)
      → (require message o >>= k) s ≡ (ok b, s')
      → (a : A) × (o ≡ some a) × (k a s ≡ (ok b, s'))
  unfolding require ◌>>=◌
  require-returns message none k s b s' e = cc
  require-returns message (some a) k s b s' e = (a, refl, e)

  pub then-returns :
      {A B : Type 0} (m : Act S A) (k : Act S B) (s : S) (a : A) (t : S)
      → m s ≡ (ok a, t)
      → (m >> k) s ≡ k t
  unfolding ◌>>◌
  then-returns m k s a t e = ap (continue_with (λ _. k)) e

  pub require-some :
      {A B : Type 0} (message : Bytes) (o : Option A) (k : A → Act S B) (s : S) (a : A)
      → o ≡ some a
      → (require message o >>= k) s ≡ k a s
  unfolding require ◌>>=◌
  require-some message o k s a e = rw e refl
