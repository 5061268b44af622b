-- ===== src/Base/Outcome.antt =====
-- What a Go function that may fail gives back: a value, an error value, or a run-time panic.
use mathlib.Core.Path.{◌≡◌, refl, subst}
use mathlib.Core.Bool.{Bool, true, false}
use moe_asset_updater_client.Base.Tests.{if◌then◌else◌}

pub data Outcome {ℓ κ} (E : Type ℓ) (A : Type κ) : Type (ℓ ⊔ κ) where
  ok : A → Outcome E A
  err : E → Outcome E A
  panic : Outcome E A

infixl 5 ◌>>=◌ ◌>>◌
abbrev pub ◌>>=◌ {ℓ κ μ} :
    {E : Type ℓ} {A : Type κ} {B : Type μ} → Outcome E A → (A → Outcome E B) → Outcome E B
ok a >>= f = f a
err e >>= f = err e
panic >>= f = panic

abbrev pub ◌>>◌ {ℓ κ} : {E : Type ℓ} {B : Type κ} → Outcome E (Unit {0}) → Outcome E B → Outcome E B
m >> k = m >>= λ _. k

-- `if !test { return err }`.
abbrev pub guard {ℓ} : {E : Type ℓ} → Bool → E → Outcome E (Unit {0})
guard true e = ok tt
guard false e = err e

-- A statement about the value, if there is one.
abbrev pub OnOk {ℓ κ μ} : {E : Type ℓ} {A : Type κ} → (A → Type μ) → Outcome E A → Type μ
OnOk P (ok a) = P a
OnOk P (err e) = Unit
OnOk P panic = Unit

-- The call returns: it gives a value or an error, and does not panic.
abbrev pub Returns {ℓ κ} : {E : Type ℓ} {A : Type κ} → Outcome E A → Type 0
Returns (ok a) = Unit
Returns (err e) = Unit
Returns panic = ⊥

pub ok-injective {ℓ κ} :
    {E : Type ℓ} {A : Type κ} {a b : A} → ◌≡◌ {A = Outcome E A} (ok a) (ok b) → a ≡ b
ok-injective e = cc

-- A bind whose first part is looked at where it succeeds.
pub OnOk->>= {ℓ κ μ ν} :
    {E : Type ℓ} {A : Type κ} {B : Type μ} (P : B → Type ν) (m : Outcome E A) (f : A → Outcome E B)
    → ((a : A) → m ≡ ok a → OnOk P (f a))
    → OnOk P (m >>= f)
OnOk->>= P (ok a) f k = k a refl
OnOk->>= P (err e) f k = tt
OnOk->>= P panic f k = tt

-- The value that a successful call gives.
pub OnOk-at {ℓ κ ν} :
    {E : Type ℓ} {A : Type κ} (P : A → Type ν) (m : Outcome E A) {a : A} → OnOk P m → m ≡ ok a → P a
OnOk-at P (ok b) h e = subst P (ok-injective e) h
OnOk-at P (err x) h e = cc
OnOk-at P panic h e = cc

-- A statement that follows from another, and one of both branches of a test.
pub OnOk-map :
    {E A : Type 0} {P : A → Type 0} (Q : A → Type 0) (m : Outcome E A)
    → OnOk P m
    → ((a : A) → P a → Q a)
    → OnOk Q m
OnOk-map Q (ok a) h f = f a h
OnOk-map Q (err e) h f = tt
OnOk-map Q panic h f = tt

pub OnOk-if :
    {E A : Type 0} (P : A → Type 0) (b : Bool) (m n : Outcome E A)
    → (b ≡ true → OnOk P m)
    → (b ≡ false → OnOk P n)
    → OnOk P (if b then m else n)
OnOk-if P true m n f g = f refl
OnOk-if P false m n f g = g refl
