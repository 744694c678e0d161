-- ===== src/Base/Options.antt =====
-- Rust's `Option`, with the `?` operator as bind.
use mathlib.Core.Bool.{Bool, true, false}
use mathlib.Core.Option.{Option, none, some}
use mathlib.Core.Path.{◌≡◌, refl}
use native.Mathlib.Omega.{arith}

infixl 5 ◌>>=◌ ◌>>◌
abbrev pub ◌>>=◌ {ℓ κ} : {A : Type ℓ} {B : Type κ} → Option A → (A → Option B) → Option B
some a >>= f = f a
none >>= f = none

abbrev pub ◌>>◌ {ℓ} : {B : Type ℓ} → Option (Unit {0}) → Option B → Option B
m >> k = m >>= λ _. k

-- `if !test { return None }`.
abbrev pub guard : Bool → Option (Unit {0})
guard true = some tt
guard false = none

-- What an option that is `some` says of its steps.
pub bound {ℓ κ} :
    {A : Type ℓ} {B : Type κ} (o : Option A) (f : A → Option B) {b : B}
    → (o >>= f) ≡ some b
    → (a : A) × (o ≡ some a) × (f a ≡ some b)
bound (some a) f h = (a, refl, h)
bound none f h = absurd (cc h)

pub passed {ℓ} :
    {B : Type ℓ} (t : Bool) (o : Option B) {b : B}
    → (guard t >> o) ≡ some b
    → (t ≡ true) × (o ≡ some b)
passed true o h = (refl, h)
passed false o h = absurd (cc h)

pub some_injective {ℓ} : {A : Type ℓ} {a b : A} → Path (Option A) (some a) (some b) → a ≡ b
some_injective h = ground arith
