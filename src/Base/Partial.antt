-- ===== src/Base/Partial.antt =====
-- What a partial result satisfies when there is one, followed through chains and tests.
use mathlib.Core.Path.{◌≡◌, refl, subst}
use mathlib.Core.Bool.{Bool, true, false}
use mathlib.Core.Option.{Option, none, some}
use morfeusz.Base.Tests.{◌>>=◌, if◌then◌else◌, eq_of_some}

abbrev pub Yields {ℓ} : {A : Type ℓ} → (A → Type 0) → Option A → Type 0
Yields P none = Unit
Yields P (some a) = P a

pub Yields-result {ℓ} :
    {A : Type ℓ} (P : A → Type 0) (m : Option A) (a : A) → Yields P m → m ≡ some a → P a
Yields-result P none a y e = absurd cc
Yields-result P (some x) a y e = subst P (eq_of_some e) y

pub Yields-bind {ℓ κ} :
    {A : Type ℓ} {B : Type κ} (P : A → Type 0) (Q : B → Type 0) (m : Option A) (f : A → Option B)
    → Yields P m
    → ((a : A) → P a → Yields Q (f a))
    → Yields Q (m >>= f)
Yields-bind P Q none f y k = tt
Yields-bind P Q (some a) f y k = k a y

pub Yields-then {ℓ κ} :
    {A : Type ℓ} {B : Type κ} (Q : B → Type 0) (m : Option A) (f : A → Option B)
    → ((a : A) → m ≡ some a → Yields Q (f a))
    → Yields Q (m >>= f)
Yields-then Q none f k = tt
Yields-then Q (some a) f k = k a refl

pub Yields-if {ℓ} :
    {A : Type ℓ} (P : A → Type 0) (b : Bool) (x y : Option A)
    → (b ≡ true → Yields P x)
    → (b ≡ false → Yields P y)
    → Yields P (if b then x else y)
Yields-if P true x y u w = u refl
Yields-if P false x y u w = w refl

pub Yields-weaken {ℓ} :
    {A : Type ℓ} (P Q : A → Type 0) (m : Option A) → ((a : A) → P a → Q a) → Yields P m → Yields Q m
Yields-weaken P Q none f y = tt
Yields-weaken P Q (some a) f y = f a y

pub bind_assoc {ℓ κ ι} :
    {A : Type ℓ} {B : Type κ} {C : Type ι} (m : Option A) (f : A → Option B) (g : B → Option C)
    → ((m >>= f) >>= g) ≡ (m >>= λ a. f a >>= g)
bind_assoc none f g = refl
bind_assoc (some a) f g = refl
