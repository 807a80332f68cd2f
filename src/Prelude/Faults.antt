-- ===== src/Prelude/Faults.antt =====
-- Code that may stop at a failed assertion or a null pointer: `none` is that fault.
use mathlib.Core.Path.{◌≡◌, refl}
use mathlib.Core.Bool.{Bool, true, false}
use mathlib.Core.Option.{Option, none, some}

infixl 5 ◌>>=◌ ◌>>◌
abbrev pub ◌>>=◌ {ℓ κ} : {A : Type ℓ} {B : Type κ} → Option A → (A → Option B) → Option B
some a >>= f = f a
none >>= f = none

abbrev pub ◌>>◌ {ℓ} : {B : Type ℓ} → Option (Unit {0}) → Option B → Option B
m >> k = m >>= λ _. k

-- `NVMEV_ASSERT(b)`, which is `BUG_ON(!b)`
abbrev pub ensure : Bool → Option (Unit {0})
ensure true = some tt
ensure false = none

pub >>=-eq-some {ℓ κ} :
    {A : Type ℓ} {B : Type κ} (m : Option A) (f : A → Option B) {b : B}
    → (m >>= f) ≡ some b
    → (a : A) × (m ≡ some a) × (f a ≡ some b)
>>=-eq-some (some a) f h = (a, refl, h)
>>=-eq-some none f h = cc

pub some-eq {ℓ} : {A : Type ℓ} {a b : A} → some a ≡ some b → a ≡ b
some-eq e = cc

pub ensure-eq-some {ℓ} :
    {A : Type ℓ} (b : Bool) (m : Option A) {a : A}
    → (ensure b >> m) ≡ some a
    → (b ≡ true) × (m ≡ some a)
ensure-eq-some true m e = (refl, e)
ensure-eq-some false m e = cc
