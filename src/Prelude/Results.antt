-- ===== src/Prelude/Results.antt =====
-- Fallible code: `Result A E` is `ok` or `err`, with the bind of the `?` operator.
use mathlib.Core.Logic.{◌≢◌, ◌⊎◌, inl, inr}
use mathlib.Core.Path.{◌≡◌, refl, sym, ap, ◌∙◌}
use mathlib.Core.Bool.{Bool, true, false}
use mathlib.Core.Option.{Option, none, some}

pub data Result {ℓ κ} (A : Type ℓ) (E : Type κ) : Type (ℓ ⊔ κ) where
  ok : A → Result A E
  err : E → Result A E

infixl 5 ◌>>=◌ ◌>>◌
abbrev pub ◌>>=◌ {ℓ κ μ} :
    {A : Type ℓ} {B : Type κ} {E : Type μ} → Result A E → (A → Result B E) → Result B E
ok a >>= f = f a
err e >>= f = err e

abbrev pub ◌>>◌ {ℓ μ} : {B : Type ℓ} {E : Type μ} → Result (Unit {0}) E → Result B E → Result B E
m >> k = m >>= λ _. k

-- `if test { bail!(e) }`
abbrev pub bail_if {μ} : {E : Type μ} → Bool → E → Result (Unit {0}) E
bail_if true e = err e
bail_if false e = ok tt

-- `Option::ok_or_else`
abbrev pub ok_or {ℓ μ} : {A : Type ℓ} {E : Type μ} → Option A → E → Result A E
ok_or none e = err e
ok_or (some a) e = ok a

-- To split on a computed result and keep the equation.
pub Result-cases {ℓ μ} :
    {A : Type ℓ} {E : Type μ} (r : Result A E) → ((a : A) × (r ≡ ok a)) ⊎ ((e : E) × (r ≡ err e))
Result-cases (ok a) = inl (a, refl)
Result-cases (err e) = inr (e, refl)

pub ok-injective {ℓ μ} :
    {A : Type ℓ} {E : Type μ} {a b : A} → ◌≡◌ {A = Result A E} (ok a) (ok b) → a ≡ b
ok-injective q = cc

-- What a chain of results says of its first link.
pub bind-ok {ℓ κ μ} :
    {A : Type ℓ} {B : Type κ} {E : Type μ} (m : Result A E) (f : A → Result B E) {b : B}
    → (m >>= f) ≡ ok b
    → (a : A) × (m ≡ ok a) × (f a ≡ ok b)
bind-ok (ok a) f q = (a, refl, q)
bind-ok (err e) f q = cc

pub bail_if-ok {ℓ μ} :
    {B : Type ℓ} {E : Type μ} (test : Bool) (e : E) (k : Result B E) {b : B}
    → (bail_if test e >> k) ≡ ok b
    → (test ≡ false) × (k ≡ ok b)
bail_if-ok true e k q = cc
bail_if-ok false e k q = (refl, q)

pub ok_or-ok {ℓ κ μ} :
    {A : Type ℓ} {B : Type κ} {E : Type μ} (o : Option A) (e : E) (f : A → Result B E) {b : B}
    → (ok_or o e >>= f) ≡ ok b
    → (a : A) × (o ≡ some a) × (f a ≡ ok b)
ok_or-ok none e f q = cc
ok_or-ok (some a) e f q = (a, refl, q)

-- The error of a result, if it is one, is not such a fault.
abbrev pub Avoids {ℓ μ} : {A : Type ℓ} {E : Type μ} → (E → Bool) → Result A E → Type (ℓ ⊔ μ)
Avoids {E = E} fault r = (x : E) → r ≡ err x → fault x ≡ false

pub ok-Avoids {ℓ μ} :
    {A : Type ℓ} {E : Type μ} (fault : E → Bool) (a : A) → Avoids {A = A} fault (ok a)
ok-Avoids fault a x q = cc

pub err-Avoids {ℓ μ} :
    {A : Type ℓ} {E : Type μ} (fault : E → Bool) (e : E)
    → fault e ≡ false
    → Avoids {A = A} fault (err e)
err-Avoids fault e h x q = let same : e ≡ x = cc in sym (ap fault same) ∙ h

pub Avoids-ne {ℓ μ} :
    {A : Type ℓ} {E : Type μ} (fault : E → Bool) {r : Result A E}
    → Avoids fault r
    → (e : E) → fault e ≡ true
    → r ≢ err e
Avoids-ne fault h e t q = let f = h e q in cc

pub bind-Avoids {ℓ κ μ} :
    {A : Type ℓ} {B : Type κ} {E : Type μ} (fault : E → Bool) (m : Result A E) (f : A → Result B E)
    → Avoids fault m
    → ((a : A) → m ≡ ok a → Avoids fault (f a))
    → Avoids fault (m >>= f)
bind-Avoids fault (ok a) f h k x q = k a refl x q
bind-Avoids fault (err e) f h k x q = h x (cc)

pub bail_if-Avoids {ℓ μ} :
    {B : Type ℓ} {E : Type μ} (fault : E → Bool) (test : Bool) (e : E) (k : Result B E)
    → (test ≡ true → fault e ≡ false)
    → (test ≡ false → Avoids fault k)
    → Avoids fault (bail_if test e >> k)
bail_if-Avoids fault true e k h j = err-Avoids fault e (h refl)
bail_if-Avoids fault false e k h j = j refl

pub ok_or-Avoids {ℓ κ μ} :
    {A : Type ℓ} {B : Type κ} {E : Type μ} (fault : E → Bool) (o : Option A) (e : E)
    (f : A → Result B E)
    → fault e ≡ false
    → ((a : A) → o ≡ some a → Avoids fault (f a))
    → Avoids fault (ok_or o e >>= f)
ok_or-Avoids fault none e f h j = err-Avoids fault e h
ok_or-Avoids fault (some a) e f h j = j a refl
