-- ===== src/Outcome.antt =====
-- Go's results: a value, an error, or a panic. An error is one that the API server answered, as
-- `errors.IsNotFound` and `errors.IsConflict` tell them apart, or one with a message of its own.
use k8s_countermeasures.Prelude.{Text, ◌≡◌, Option, none, some, refl, ◌⊎◌, inl, inr, ◌++◌}

pub data Error : Type 0 where
  not_found conflict failed : Text → Error

-- `err.Error()`.
abbrev pub error_text : Error → Text
error_text (not_found t) = t
error_text (conflict t) = t
error_text (failed t) = t

-- `fmt.Errorf("…%w", err)`: the error is still found under the new message.
abbrev pub wrap : Text → Error → Error
wrap message (not_found t) = not_found (message ++ t)
wrap message (conflict t) = conflict (message ++ t)
wrap message (failed t) = failed (message ++ t)

pub data Outcome {ℓ} (A : Type ℓ) : Type ℓ where
  ok : A → Outcome A
  err : Error → Outcome A
  panic : Outcome A

infixl 5 ◌>>=◌ ◌>>◌
abbrev pub ◌>>=◌ {ℓ κ} : {A : Type ℓ} {B : Type κ} → Outcome A → (A → Outcome B) → Outcome B
ok a >>= f = f a
err e >>= f = err e
panic >>= f = panic

abbrev pub ◌>>◌ {ℓ} : {B : Type ℓ} → Outcome (Unit {0}) → Outcome B → Outcome B
m >> k = m >>= λ _. k

-- `*p`: a nil pointer panics.
abbrev pub deref {ℓ} : {A : Type ℓ} → Option A → Outcome A
deref none = panic
deref (some a) = ok a

-- `if err != nil { panic(err) }`.
abbrev pub must {ℓ} : {A : Type ℓ} → Outcome A → Outcome A
must (ok a) = ok a
must (err e) = panic
must panic = panic

-- A call that returns only an error, nil for success.
abbrev pub from_error : Option Error → Outcome (Unit {0})
from_error none = ok tt
from_error (some e) = err e

pub Outcome-cases {ℓ} :
    {A : Type ℓ} (o : Outcome A)
    → ((a : A) × (o ≡ ok a)) ⊎ (((e : Error) × (o ≡ err e)) ⊎ (o ≡ panic))
Outcome-cases (ok a) = inl (a, refl)
Outcome-cases (err e) = inr (inl (e, refl))
Outcome-cases panic = inr (inr refl)
