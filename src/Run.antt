-- ===== src/Run.antt =====
-- The result of running a piece of the program: a value, a failed assertion or other fault that
-- ends the program, or fuel that ran out in a loop that was still going.
use pexec.Base.{if◌then◌else◌, Bool, true, false, ◌≡◌, refl}

pub data Run {ℓ} (A : Type ℓ) : Type ℓ where
  done : A → Run A
  fault : Run A
  timeout : Run A

infixl 5 ◌>>=◌
abbrev pub ◌>>=◌ {ℓ κ} : {A : Type ℓ} {B : Type κ} → Run A → (A → Run B) → Run B
done a >>= f = f a
fault >>= f = fault
timeout >>= f = timeout

-- `assert(b)`
abbrev pub assert_then {ℓ} : {A : Type ℓ} → Bool → Run A → Run A
assert_then true r = r
assert_then false r = fault

-- What a run that returns guarantees of its value.
abbrev pub Ensures {ℓ κ} : {A : Type ℓ} → (A → Type κ) → Run A → Type κ
Ensures P (done a) = P a
Ensures P fault = Unit
Ensures P timeout = Unit

pub Ensures-bind {ℓ κ ι} :
    {A : Type ℓ} {B : Type κ} (P : A → Type ι) (Q : B → Type ι) (r : Run A) (f : A → Run B)
    → Ensures P r
    → ((a : A) → P a → Ensures Q (f a))
    → Ensures Q (r >>= f)
Ensures-bind P Q (done a) f h k = k a h
Ensures-bind P Q fault f h k = tt
Ensures-bind P Q timeout f h k = tt

pub Ensures-imp {ℓ κ ι} :
    {A : Type ℓ} (P : A → Type κ) (Q : A → Type ι) (r : Run A)
    → Ensures P r
    → ((a : A) → P a → Q a)
    → Ensures Q r
Ensures-imp P Q (done a) h k = k a h
Ensures-imp P Q fault h k = tt
Ensures-imp P Q timeout h k = tt

pub Ensures-if {ℓ κ} :
    {A : Type ℓ} (P : A → Type κ) (b : Bool) (r r' : Run A)
    → Ensures P r
    → Ensures P r'
    → Ensures P (if b then r else r')
Ensures-if P true r r' h k = h
Ensures-if P false r r' h k = k

pub Ensures-any {ℓ} : {A : Type ℓ} (r : Run A) → Ensures (λ _. Unit {0}) r
Ensures-any (done a) = tt
Ensures-any fault = tt
Ensures-any timeout = tt

pub Ensures-value {ℓ} :
    {A : Type ℓ} (P : A → Type ℓ) (r : Run A) → Ensures P r → Ensures (λ a. P a × (r ≡ done a)) r
Ensures-value P (done a) h = (h, refl)
Ensures-value P fault h = tt
Ensures-value P timeout h = tt

-- The run returns, and guarantees `P` of its value.
abbrev pub Returns {ℓ} : {A : Type ℓ} → (A → Type 0) → Run A → Type 0
Returns P (done a) = P a
Returns P fault = ⊥
Returns P timeout = ⊥

pub Returns-bind {ℓ κ} :
    {A : Type ℓ} {B : Type κ} (P : A → Type 0) (Q : B → Type 0) (r : Run A) (f : A → Run B)
    → Returns P r
    → ((a : A) → P a → Returns Q (f a))
    → Returns Q (r >>= f)
Returns-bind P Q (done a) f h k = k a h
Returns-bind P Q fault f h k = absurd h
Returns-bind P Q timeout f h k = absurd h

pub Returns-imp {ℓ} :
    {A : Type ℓ} (P : A → Type 0) (Q : A → Type 0) (r : Run A)
    → Returns P r
    → ((a : A) → P a → Q a)
    → Returns Q r
Returns-imp P Q (done a) h k = k a h
Returns-imp P Q fault h k = absurd h
Returns-imp P Q timeout h k = absurd h

pub Returns-done {ℓ} :
    {A : Type ℓ} (P : A → Type 0) (r : Run A) → Returns P r → (a : A) × (r ≡ done a) × P a
Returns-done P (done a) h = (a, refl, h)
Returns-done P fault h = absurd h
Returns-done P timeout h = absurd h

pub Returns-when {ℓ} :
    {A : Type ℓ} (C : Type 0) (P Q : A → Type 0) (r : Run A)
    → Returns P r
    → (C → Returns Q r)
    → Returns (λ a. P a × (C → Q a)) r
Returns-when C P Q (done a) h k = (h, k)
Returns-when C P Q fault h k = absurd h
Returns-when C P Q timeout h k = absurd h

pub Returns-Ensures {ℓ} : {A : Type ℓ} (P : A → Type 0) (r : Run A) → Returns P r → Ensures P r
Returns-Ensures P (done a) h = h
Returns-Ensures P fault h = tt
Returns-Ensures P timeout h = tt
