-- ===== src/Base/Errors.antt =====
-- What a C++ function that may throw returns: its value, or the class of the exception.

use mathlib.Core.Path.{subst}
use mathlib.Core.Path.{◌≡◌, refl}
use mathlib.Core.Logic.{◌⊎◌, inl, inr}
use mathlib.Core.Bool.{Bool, true, false}

-- The standard exception classes that the sources throw, and those of the catalog and the replica.
pub data Error : Type 0 where
  invalid_argument runtime_error length_error overflow_error logic_error : Error
  out_of_range bad_variant_access : Error
  entity_creation_conflict replica_budget : Error

pub data Outcome {ℓ} (A : Type ℓ) : Type ℓ where
  ok : A → Outcome A
  err : Error → Outcome A

infixl 5 ◌>>=◌ ◌>>◌
-- An exception leaves the statements after it undone.
abbrev pub ◌>>=◌ {ℓ κ} : {A : Type ℓ} {B : Type κ} → Outcome A → (A → Outcome B) → Outcome B
err e >>= next = err e
ok value >>= next = next value

abbrev pub ◌>>◌ {ℓ} : {A : Type ℓ} → Outcome (Unit {0}) → Outcome A → Outcome A
first >> rest = first >>= λ _. rest

-- `if(bad) throw e;`
abbrev pub throw_if : Bool → Error → Outcome (Unit {0})
throw_if true e = err e
throw_if false e = ok tt

pub Outcome-cases {ℓ} :
    {A : Type ℓ} (r : Outcome A) → ((a : A) × (r ≡ ok a)) ⊎ ((e : Error) × (r ≡ err e))
Outcome-cases (ok a) = inl (a, refl)
Outcome-cases (err e) = inr (e, refl)

pub >>=-eq-ok {ℓ κ} :
    {A : Type ℓ} {B : Type κ} (first : Outcome A) (next : A → Outcome B) {last : B}
    → (first >>= next) ≡ ok last
    → (mid : A) × (first ≡ ok mid) × (next mid ≡ ok last)
>>=-eq-ok (err e) next thrown = cc
>>=-eq-ok (ok mid) next same = (mid, refl, same)

pub throw_if-eq-ok {ℓ} :
    {A : Type ℓ} (t : Bool) (e : Error) (k : Outcome A) {a : A}
    → (throw_if t e >> k) ≡ ok a
    → (t ≡ false) × (k ≡ ok a)
throw_if-eq-ok true e k h = cc
throw_if-eq-ok false e k h = (refl, h)

pub ok-injective {ℓ} : {A : Type ℓ} {a b : A} → ok a ≡ ok b → a ≡ b
ok-injective h = cc

-- What holds of the value that a call returned holds of the value that it is known to return.
pub ok-subst {ℓ κ} : {A : Type ℓ} (P : A → Type κ) {a b : A} → ok a ≡ ok b → P a → P b
ok-subst {A = A} P e = subst (λ r. at r) e
  where
    at : Outcome A → Type κ
    at (ok a) = P a
    at (err x) = Unit
