-- ===== src/Protocol/Inversion.antt =====
-- Taking apart code of a transaction that gave a value.
use ogra.Prelude.{
  ◌≡◌, refl, ap, Bool, true, false, not, ◌||◌, Option, none, some, arith, if◌then◌else◌,
}
use ogra.Durable.Transaction.{OgraErrorCode, Result, ok, err, Tx, ◌>>=◌, require, require_some}
use ogra.Protocol.{ProtocolTables, lift}

continue_ok :
    {A B : Type 0} (f : A → Tx ProtocolTables B) (r : Result (A × ProtocolTables)) (b : B)
    (u : ProtocolTables)
    → elim r [ ok (a, v) ↦ f a v | err e ↦ err e ] ≡ ok (b, u)
    → (a : A) × (v : ProtocolTables) × (r ≡ ok (a, v)) × (f a v ≡ ok (b, u))
continue_ok f (ok (a, v)) b u h = (a, v, refl, h)
continue_ok f (err e) b u h = absurd (ground arith)

pub bind_ok :
    {A B : Type 0} (m : Tx ProtocolTables A) (f : A → Tx ProtocolTables B) (t : ProtocolTables)
    (b : B) (u : ProtocolTables)
    → (m >>= f) t ≡ ok (b, u)
    → (a : A) × (v : ProtocolTables) × (m t ≡ ok (a, v)) × (f a v ≡ ok (b, u))
bind_ok m f t b u h = continue_ok f (m t) b u h

pub require_ok :
    {B : Type 0} (c : Bool) (e : OgraErrorCode) (f : Unit {0} → Tx ProtocolTables B)
    (t : ProtocolTables) (b : B) (u : ProtocolTables)
    → (require c e >>= f) t ≡ ok (b, u)
    → (c ≡ true) × (f tt t ≡ ok (b, u))
require_ok true e f t b u h = (refl, h)
require_ok false e f t b u h = absurd (ground arith)

some_ok :
    {A B : Type 0} (o : Option A) (e : OgraErrorCode) (f : A → Tx ProtocolTables B)
    (t : ProtocolTables) (b : B) (u : ProtocolTables)
    → (require_some o e >>= f) t ≡ ok (b, u)
    → (a : A) × (o ≡ some a) × (f a t ≡ ok (b, u))
some_ok none e f t b u h = absurd (ground arith)
some_ok (some a) e f t b u h = (a, refl, h)

pub row_ok :
    {A B : Type 0} (g : ProtocolTables → Option A) (e : OgraErrorCode) (f : A → Tx ProtocolTables B)
    (t : ProtocolTables) (b : B) (u : ProtocolTables)
    → ((λ v. require_some (g v) e v) >>= f) t ≡ ok (b, u)
    → (a : A) × (g t ≡ some a) × (f a t ≡ ok (b, u))
row_ok g e f t b u h = some_ok (g t) e f t b u h

read_ok :
    {A B : Type 0} (r : Result A) (f : A → Tx ProtocolTables B) (t : ProtocolTables) (b : B)
    (u : ProtocolTables)
    → ((λ (v : ProtocolTables). elim r as (λ _. Result (A × ProtocolTables)) [
      | ok a ↦ ok (a, v)
      | err e ↦ err e
    ])
          >>= f)
        t
      ≡ ok (b, u)
    → (a : A) × (r ≡ ok a) × (f a t ≡ ok (b, u))
read_ok (ok a) f t b u h = (a, refl, h)
read_ok (err e) f t b u h = absurd (ground arith)

pub lift_ok :
    {A B : Type 0} (g : ProtocolTables → Result A) (f : A → Tx ProtocolTables B)
    (t : ProtocolTables) (b : B) (u : ProtocolTables)
    → (lift g >>= f) t ≡ ok (b, u)
    → (a : A) × (g t ≡ ok a) × (f a t ≡ ok (b, u))
lift_ok g f t b u h = read_ok (g t) f t b u h

abbrev tables_or : {A : Type 0} → ProtocolTables → Result (A × ProtocolTables) → ProtocolTables
tables_or t (ok (a, u)) = u
tables_or t (err e) = t

abbrev value_or : {A : Type 0} → A → Result (A × ProtocolTables) → A
value_or a (ok (b, u)) = b
value_or a (err e) = a

pub ok_tables :
    {A : Type 0} (a b : A) (t u : ProtocolTables)
    → ◌≡◌ {A = Result (A × ProtocolTables)} (ok (a, t)) (ok (b, u))
    → t ≡ u
ok_tables a b t u h = ap (tables_or t) h

pub ok_value :
    {A : Type 0} (a b : A) (t u : ProtocolTables)
    → ◌≡◌ {A = Result (A × ProtocolTables)} (ok (a, t)) (ok (b, u))
    → a ≡ b
ok_value a b t u h = ap (value_or a) h

pub unless_ok :
    {A : Type 0} (c : Bool) (e : OgraErrorCode) (k : Result A) (a : A)
    → (if c then err e else k) ≡ ok a
    → (c ≡ false) × (k ≡ ok a)
unless_ok true e k a h = absurd (ground arith)
unless_ok false e k a h = (refl, h)

pub option_ok :
    {A B : Type 0} (o : Option A) (e : OgraErrorCode) (f : A → Result B) (b : B)
    → (elim o as (λ _. Result B) [ none ↦ err e | some a ↦ f a ]) ≡ ok b
    → (a : A) × (o ≡ some a) × (f a ≡ ok b)
option_ok none e f b h = absurd (ground arith)
option_ok (some a) e f b h = (a, refl, h)

abbrev pub ok_or : {A : Type 0} → A → Result A → A
ok_or a (ok b) = b
ok_or a (err e) = a

pub double_negation : (b : Bool) → not b ≡ false → b ≡ true
double_negation true h = refl
double_negation false h = absurd (ground (arith, h))

pub neither : (a b : Bool) → (a || b) ≡ false → (a ≡ false) × (b ≡ false)
neither true b h = absurd (ground (arith, h))
neither false b h = (refl, h)

read_last_ok :
    {A : Type 0} (r : Result A) (t : ProtocolTables) (a : A) (u : ProtocolTables)
    → (elim r as (λ _. Result (A × ProtocolTables)) [ ok a ↦ ok (a, t) | err e ↦ err e ])
      ≡ ok (a, u)
    → (r ≡ ok a) × (t ≡ u)
read_last_ok (ok b) t a u h = (ap ok (ok_value b a t u h), ok_tables b a t u h)
read_last_ok (err e) t a u h = absurd (ground arith)

pub last_lift_ok :
    {A : Type 0} (g : ProtocolTables → Result A) (t : ProtocolTables) (a : A) (u : ProtocolTables)
    → lift g t ≡ ok (a, u)
    → (g t ≡ ok a) × (t ≡ u)
last_lift_ok g t a u h = read_last_ok (g t) t a u h
