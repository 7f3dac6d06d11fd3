-- ===== src/Base/Results.antt =====
-- How a Go call ends: it returns, it returns an error, or it panics. An error is kept as the bytes
-- of its message's fixed part; a panic ends the call chain.
use mathlib.Core.Path.{◌≡◌, refl}
use wga.Base.Strings.{Bytes}

pub data Outcome {ℓ} (A : Type ℓ) : Type ℓ where
  panic : Bytes → Outcome A
  err : Bytes → Outcome A
  ok : A → Outcome A

infixl 5 ◌>>=◌
abbrev pub ◌>>=◌ {ℓ κ} : {T : Type ℓ} {U : Type κ} → Outcome T → (T → Outcome U) → Outcome U
panic why >>= next = panic why
err why >>= next = err why
ok value >>= next = next value

-- Inversion of a successful bind.
pub >>=-eq-ok {ℓ κ} :
    {T : Type ℓ} {U : Type κ} (first : Outcome T) (next : T → Outcome U) {u : U}
    → (first >>= next) ≡ ok u
    → (t : T) × (first ≡ ok t) × (next t ≡ ok u)
>>=-eq-ok (panic why) next returned = cc
>>=-eq-ok (err why) next returned = cc
>>=-eq-ok (ok t) next returned = (t, refl, returned)
