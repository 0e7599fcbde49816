-- ===== src/Base/Outcome.antt =====
-- The outcome of a piece of C code.
use mathlib.Core.Path.{◌≡◌, refl}
use mathlib.Core.Bool.{Bool, true, false}
use ebot.Base.Tests.{if◌then◌else◌}

-- `exits` is a call of `exit` or a failed `assert`; `fault` is undefined behaviour: an access
-- outside an allocation, a `NULL` dereference, a signed overflow; `waits` is a call that does not
-- come back until another thread does something.
pub data Run {ℓ} (A : Type ℓ) : Type ℓ where
  ok : A → Run A
  exits : Run A
  fault : Run A
  waits : Run A

infixl 5 ◌>>=◌ ◌>>◌
abbrev pub ◌>>=◌ {ℓ κ} : {A : Type ℓ} {B : Type κ} → Run A → (A → Run B) → Run B
ok a >>= f = f a
exits >>= f = exits
fault >>= f = fault
waits >>= f = waits

abbrev pub ◌>>◌ {ℓ} : {B : Type ℓ} → Run (Unit {0}) → Run B → Run B
m >> k = m >>= λ _. k

-- The code comes to its end, with a result of which `P` holds.
abbrev pub Returns {ℓ} : {A : Type ℓ} → (A → Type 0) → Run A → Type 0
Returns P (ok a) = P a
Returns P _ = ⊥

pub Returns-map {ℓ} :
    {A : Type ℓ} {P R : A → Type 0} (r : Run A) → ((a : A) → P a → R a) → Returns P r → Returns R r
Returns-map (ok a) f h = f a h
Returns-map exits f h = h
Returns-map fault f h = h
Returns-map waits f h = h

pub Returns-if {ℓ} :
    {A : Type ℓ} (P : A → Type 0) (b : Bool) (x y : Run A)
    → (b ≡ true → Returns P x)
    → (b ≡ false → Returns P y)
    → Returns P (if b then x else y)
Returns-if P true x y f g = f refl
Returns-if P false x y f g = g refl

pub Returns-bind {ℓ κ} :
    {A : Type ℓ} {B : Type κ} (P : A → Type 0) (R : B → Type 0) (m : Run A) (f : A → Run B)
    → Returns P m
    → ((a : A) → P a → Returns R (f a))
    → Returns R (m >>= f)
Returns-bind P R (ok a) f h g = g a h
Returns-bind P R exits f h g = absurd h
Returns-bind P R fault f h g = absurd h
Returns-bind P R waits f h g = absurd h

-- What comes to its end is a result.
pub Returns-ok {ℓ} :
    {A : Type ℓ} {P : A → Type 0} (r : Run A) → Returns P r → (a : A) × (r ≡ ok a) × P a
Returns-ok (ok a) h = (a, refl, h)
Returns-ok exits h = absurd h
Returns-ok fault h = absurd h
Returns-ok waits h = absurd h

pub Returns-both {ℓ} :
    {A : Type ℓ} (P R : A → Type 0) (r : Run A)
    → Returns P r
    → Returns R r
    → Returns (λ a. P a × R a) r
Returns-both P R (ok a) h k = (h, k)
Returns-both P R exits h k = h
Returns-both P R fault h k = h
Returns-both P R waits h k = h
