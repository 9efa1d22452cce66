-- ===== src/Base/Ensures.antt =====
-- What a computation that may fail gives when it does not.
use proj.Base.{◌≡◌, Option, none, some, ◌>>=◌}
use mathlib.Core.Path.{subst}

abbrev pub Ensures {ℓ κ} : {A : Type ℓ} → (A → Type κ) → Option A → Type κ
Ensures P none = Unit
Ensures P (some a) = P a

-- The first step of a chain ensures something, and what follows builds on it.
pub Ensures-bind {ℓ ℓ' κ κ'} :
    {A : Type ℓ} {B : Type ℓ'} (Q : A → Type κ) (P : B → Type κ') (o : Option A) (f : A → Option B)
    → Ensures Q o
    → ((a : A) → Q a → Ensures P (f a))
    → Ensures P (o >>= f)
Ensures-bind Q P none f first next = tt
Ensures-bind Q P (some a) f first next = next a first

-- And without a claim on the first step.
pub Ensures-then {ℓ ℓ' κ} :
    {A : Type ℓ} {B : Type ℓ'} (P : B → Type κ) (o : Option A) (f : A → Option B)
    → ((a : A) → Ensures P (f a))
    → Ensures P (o >>= f)
Ensures-then P none f next = tt
Ensures-then P (some a) f next = next a

pub Ensures-some {ℓ κ} :
    {A : Type ℓ} (P : A → Type κ) (o : Option A) (a : A) → Ensures P o → o ≡ some a → P a
Ensures-some P o a h e = subst (Ensures P) e h
