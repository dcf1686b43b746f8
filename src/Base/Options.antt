-- ===== src/Base/Options.antt =====
-- What holds of the value of an option, if it has one.
use mathlib.Core.Path.{◌≡◌, refl, sym, subst}
use mathlib.Core.Bool.{Bool, true, false}
use mathlib.Core.Option.{Option, none, some}
use kyna.Base.Tests.{if◌then◌else◌}

pub data Each {ℓ} {A : Type ℓ} (P : A → Type 0) : Option A → Type ℓ where
  nothing : Each P none
  just : {a : A} → P a → Each P (some a)

pub Each-if {ℓ} :
    {A : Type ℓ} {P : A → Type 0} {x y : Option A} (b : Bool)
    → Each P x
    → Each P y
    → Each P (if b then x else y)
Each-if true p q = p
Each-if false p q = q

-- An option read as the result of an operation that may have none; `do` blocks go through it.
infixl 5 ◌>>=◌
unfoldable pub ◌>>=◌ {ℓ κ} : {A : Type ℓ} {B : Type κ} → Option A → (A → Option B) → Option B
none >>= f = none
some a >>= f = f a

-- The option has a value, and `P` holds of it.
pub data Yields {ℓ κ} {A : Type ℓ} (P : A → Type κ) : Option A → Type (ℓ ⊔ κ) where
  yields : {a : A} → P a → Yields P (some a)

pub bind-Yields {ℓ κ μ ν} :
    {A : Type ℓ} {B : Type κ} {P : A → Type μ} {Q : B → Type ν} {o : Option A} {f : A → Option B}
    → Yields P o
    → ((a : A) → P a → Yields Q (f a))
    → Yields Q (o >>= f)
unfolding ◌>>=◌
bind-Yields (yields p) k = k _ p

pub Yields-if {ℓ κ} :
    {A : Type ℓ} {P : A → Type κ} {x y : Option A} (b : Bool)
    → (b ≡ true → Yields P x)
    → (b ≡ false → Yields P y)
    → Yields P (if b then x else y)
Yields-if true p q = p refl
Yields-if false p q = q refl

pub Yields-map {ℓ κ μ} :
    {A : Type ℓ} {P : A → Type κ} {Q : A → Type μ} {o : Option A}
    → ((a : A) → P a → Q a)
    → Yields P o
    → Yields Q o
Yields-map k (yields p) = yields (k _ p)

pub Yields-eq {ℓ κ} :
    {A : Type ℓ} {P : A → Type κ} {o : Option A} {a : A} → o ≡ some a → P a → Yields P o
Yields-eq e p = subst (Yields _) (sym e) (yields p)

pub Yields-value {ℓ κ} :
    {A : Type ℓ} {P : A → Type κ} {o : Option A} → Yields P o → (a : A) × (o ≡ some a) × P a
Yields-value (yields p) = (_, refl, p)
