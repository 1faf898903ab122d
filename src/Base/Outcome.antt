-- ===== src/Base/Outcome.antt =====
-- Rust's `Result` with its `?` operator. `E` is the type of a component's errors.
use mathlib.Core.Path.{◌≡◌, refl}
use mathlib.Core.Bool.{Bool, true, false}
use mathlib.Core.Option.{Option, none, some}
use mathlib.Core.Logic.{◌⊎◌, inl, inr}

pub data Result {ℓ} (E : Type 0) (A : Type ℓ) : Type ℓ where
  ok : A → Result E A
  err : E → Result E A

infixl 5 ◌>>=◌ ◌>>◌
abbrev pub ◌>>=◌ {ℓ κ} :
    {E : Type 0} {A : Type ℓ} {B : Type κ} → Result E A → (A → Result E B) → Result E B
err failure >>= next = err failure
ok value >>= next = next value

abbrev pub ◌>>◌ {ℓ} : {E : Type 0} {B : Type ℓ} → Result E (Unit {0}) → Result E B → Result E B
err failure >> rest = err failure
ok _ >> rest = rest

-- `if test { bail!(e) }`
abbrev pub bail_if : {E : Type 0} → Bool → E → Result E (Unit {0})
bail_if true e = err e
bail_if false e = ok tt

-- `o.context(e)?`
abbrev pub context {ℓ} : {E : Type 0} {A : Type ℓ} → Option A → E → Result E A
context none e = err e
context (some a) e = ok a

pub Result-cases {ℓ} :
    {E : Type 0} {A : Type ℓ} (r : Result E A) → ((a : A) × (r ≡ ok a)) ⊎ ((e : E) × (r ≡ err e))
Result-cases (ok a) = inl (a, refl)
Result-cases (err e) = inr (e, refl)

pub >>=-eq-ok {ℓ κ} :
    {E : Type 0} {A : Type ℓ} {B : Type κ} (first : Result E A) (next : A → Result E B) {end : B}
    → (first >>= next) ≡ ok end
    → (mid : A) × (first ≡ ok mid) × (next mid ≡ ok end)
>>=-eq-ok (err failure) next h = cc
>>=-eq-ok (ok value) next h = (value, refl, h)

pub bail_if-eq-ok {ℓ} :
    {E : Type 0} {A : Type ℓ} (test : Bool) (e : E) (m : Result E A) {a : A}
    → (bail_if test e >> m) ≡ ok a
    → (test ≡ false) × (m ≡ ok a)
bail_if-eq-ok true e m h = cc
bail_if-eq-ok false e m h = (refl, h)

-- What holds of the value, if there is one.
abbrev pub Yields {ℓ κ} : {E : Type 0} {A : Type ℓ} → (A → Type κ) → Result E A → Type κ
Yields P (err e) = Unit {κ}
Yields P (ok a) = P a

pub Yields-bind {ℓ κ ν} :
    {E : Type 0} {A : Type ℓ} {B : Type κ} (P : B → Type ν) (first : Result E A)
    (next : A → Result E B)
    → ((a : A) → first ≡ ok a → Yields P (next a))
    → Yields P (first >>= next)
Yields-bind P (err e) next h = tt
Yields-bind P (ok a) next h = h a refl

pub Yields-bail_if {ℓ κ} :
    {E : Type 0} {A : Type ℓ} (P : A → Type κ) (test : Bool) (e : E) (m : Result E A)
    → (test ≡ false → Yields P m)
    → Yields P (bail_if test e >> m)
Yields-bail_if P true e m h = tt
Yields-bail_if P false e m h = h refl

pub Yields-weaken {ℓ κ ν} :
    {E : Type 0} {A : Type ℓ} (P : A → Type κ) (Q : A → Type ν) (r : Result E A)
    → ((a : A) → P a → Q a)
    → Yields P r
    → Yields Q r
Yields-weaken P Q (err e) weaken h = tt
Yields-weaken P Q (ok a) weaken h = weaken a h

-- One poll of an operation that may wait.
pub data Poll {ℓ} (A : Type ℓ) : Type ℓ where
  ready : A → Poll A
  pending : Poll A
