-- ===== src/Capsule/Inversion.antt =====
-- Taking apart a call of the capsule store that gave a value.
use ogra.Prelude.{◌≡◌, refl, Bool, true, false, Option, none, some, arith}
use ogra.Durable.Transaction.{OgraErrorCode, Result, ok, err}
use ogra.Capsule.{
  CapsuleTables, Fresh, Steps, FailureInput, refuse_if, some_or_fail, proceed, ◌>>=◌,
}

proceed_ok :
    {A B : Type 0} (f : A → Steps CapsuleTables B) (r : Result A × CapsuleTables) (b : B)
    (u : CapsuleTables)
    → proceed f r ≡ (ok b, u)
    → (a : A) × (v : CapsuleTables) × (r ≡ (ok a, v)) × (f a v ≡ (ok b, u))
proceed_ok f (ok a, v) b u h = (a, v, refl, h)
proceed_ok f (err e, v) b u h = absurd (ground arith)

pub bind_ok :
    {A B : Type 0} (m : Steps CapsuleTables A) (f : A → Steps CapsuleTables B) (t : CapsuleTables)
    (b : B) (u : CapsuleTables)
    → (m >>= f) t ≡ (ok b, u)
    → (a : A) × (v : CapsuleTables) × (m t ≡ (ok a, v)) × (f a v ≡ (ok b, u))
bind_ok m f t b u h = proceed_ok f (m t) b u h

-- A test that lets a call go on was false, and wrote nothing.
pub refuse_if_ok :
    (c : Bool) (fresh : Fresh) (input : FailureInput) (e : OgraErrorCode) (t u : CapsuleTables)
    (x : Unit {0})
    → refuse_if c fresh input e t ≡ (ok x, u)
    → (c ≡ false) × (t ≡ u)
refuse_if_ok true fresh input e t u x h = absurd (ground arith)
refuse_if_ok false fresh input e t u x h = (refl, ground arith)

pub some_or_fail_ok :
    {A : Type 0} (o : Option A) (fresh : Fresh) (input : FailureInput) (e : OgraErrorCode)
    (t u : CapsuleTables) (a : A)
    → some_or_fail o fresh input e t ≡ (ok a, u)
    → (o ≡ some a) × (t ≡ u)
some_or_fail_ok none fresh input e t u a h = absurd (ground arith)
some_or_fail_ok (some b) fresh input e t u a h = (ground arith, ground arith)
