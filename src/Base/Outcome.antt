-- ===== src/Base/Outcome.antt =====
-- A call that may raise: the exception is a value.
use mathlib.Core.Path.{◌≡◌, refl, ap, sym}
use mathlib.Core.Logic.{◌⊎◌, inl, inr}
use mathlib.Core.Bool.{Bool, true, false}
use agentic_loop_template.Base.Tests.{if◌then◌else◌}

pub data Result (E A : Type 0) : Type 0 where
  ok : A → Result E A
  err : E → Result E A

-- `if condition: raise e`
abbrev pub raise_if : {E : Type 0} → Bool → E → Result E (Unit {0})
raise_if true e = err e
raise_if false e = ok tt

infixl 5 ◌>>=◌
abbrev pub ◌>>=◌ : {E A B : Type 0} → Result E A → (A → Result E B) → Result E B
err e >>= next = err e
ok x >>= next = next x

-- Inversion of a block that returned.
pub >>=-eq-ok :
    {E A B : Type 0} (first : Result E A) (next : A → Result E B) {b : B}
    → (first >>= next) ≡ ok b
    → (x : A) × (first ≡ ok x) × (next x ≡ ok b)
>>=-eq-ok (err e) next h = cc
>>=-eq-ok (ok x) next h = (x, refl, h)

infixl 5 ◌>>◌
abbrev pub ◌>>◌ : {E B : Type 0} → Result E (Unit {0}) → Result E B → Result E B
first >> second = first >>= λ _. second

pub Result-cases :
    {E A : Type 0} (r : Result E A) → ((e : E) × (r ≡ err e)) ⊎ ((a : A) × (r ≡ ok a))
Result-cases (err e) = inl (e, refl)
Result-cases (ok a) = inr (a, refl)

-- A branch that raises was not taken, and a guard that raises did not fire.
pub if_err-eq-ok :
    {E A : Type 0} (c : Bool) (e : E) (r : Result E A) {a : A}
    → (if c then err e else r) ≡ ok a
    → (c ≡ false) × (r ≡ ok a)
if_err-eq-ok true e r h = cc
if_err-eq-ok false e r h = (refl, h)

pub raise_if-eq-ok :
    {E B : Type 0} (c : Bool) (e : E) (r : Result E B) {b : B}
    → (raise_if c e >> r) ≡ ok b
    → (c ≡ false) × (r ≡ ok b)
raise_if-eq-ok true e r h = cc
raise_if-eq-ok false e r h = (refl, h)

pub >>-eq-ok :
    {E B : Type 0} (m : Result E (Unit {0})) (k : Result E B) {b : B}
    → (m >> k) ≡ ok b
    → (m ≡ ok tt) × (k ≡ ok b)
>>-eq-ok (ok tt) k h = (refl, h)
>>-eq-ok (err e) k h = cc

pub ok-eq-ok : {E A : Type 0} {a b : A} → ◌≡◌ {A = Result E A} (ok a) (ok b) → a ≡ b
ok-eq-ok h = cc h

pub ok-eq-pair :
    {E A B : Type 0} {a c : A} {b d : B}
    → ◌≡◌ {A = Result E (A × B)} (ok (a, b)) (ok (c, d))
    → (c ≡ a) × (d ≡ b)
ok-eq-pair {A} {B} h =
    let e = ok-eq-ok h in (ap (λ (x : A × B). x.0) (sym e), ap (λ (x : A × B). x.1) (sym e))
