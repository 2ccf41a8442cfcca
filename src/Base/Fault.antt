-- ===== src/Base/Fault.antt =====
-- Results of code that can run into undefined behaviour: `none` is an access outside an object, through
-- a null or dangling pointer, or a division by zero; `some` is a run without any.
use mathlib.Core.Option.{Option, none, some}
use mathlib.Core.Path.{◌≡◌, refl}

infixl 5 ◌>>=◌
abbrev pub ◌>>=◌ {ℓ κ} : {A : Type ℓ} {B : Type κ} → Option A → (A → Option B) → Option B
some a >>= f = f a
none >>= f = none

-- What holds of the result of a run that has no undefined behaviour; `⊥` of one that has.
abbrev pub Ensures {ℓ} : {A : Type ℓ} → (A → Type 0) → Option A → Type 0
Ensures P none = ⊥
Ensures P (some a) = P a

-- A run without undefined behaviour.
abbrev pub Runs {ℓ} : {A : Type ℓ} → Option A → Type 0
Runs m = Ensures (λ a. Unit {0}) m

-- A chain of runs without undefined behaviour has none.
pub Ensures-bind {ℓ κ} :
    {A : Type ℓ} {B : Type κ} (P : A → Type 0) (Q : B → Type 0) (m : Option A) (f : A → Option B)
    → Ensures P m
    → ((a : A) → P a → Ensures Q (f a))
    → Ensures Q (m >>= f)
Ensures-bind P Q none f h k = absurd h
Ensures-bind P Q (some a) f h k = k a h

pub Ensures-mono {ℓ} :
    {A : Type ℓ} (P Q : A → Type 0) (m : Option A)
    → Ensures P m
    → ((a : A) → P a → Q a)
    → Ensures Q m
Ensures-mono P Q none h k = h
Ensures-mono P Q (some a) h k = k a h

pub Ensures-some {ℓ} :
    {A : Type ℓ} (P : A → Type 0) (m : Option A) → Ensures P m → (a : A) × (m ≡ some a) × P a
Ensures-some P none h = absurd h
Ensures-some P (some a) h = (a, refl, h)
