-- ===== src/Base/Results.antt =====
-- Rust's `Result`, with the `?` operator as bind.
use mathlib.Core.Path.{◌≡◌, refl}
use mathlib.Core.Logic.{◌⊎◌, inl, inr}
use mathlib.Core.Bool.{Bool, true, false}
use mathlib.Core.Option.{Option, none, some}
use native.Mathlib.Omega.{arith}

pub data Result {ℓ κ} (A : Type ℓ) (E : Type κ) : Type (ℓ ⊔ κ) where
  ok : A → Result A E
  err : E → Result A E

infixl 5 ◌>>=◌ ◌>>◌
abbrev pub ◌>>=◌ {ℓ κ μ} :
    {A : Type ℓ} {B : Type κ} {E : Type μ} → Result A E → (A → Result B E) → Result B E
ok a >>= f = f a
err e >>= f = err e

abbrev pub ◌>>◌ {ℓ κ} : {B : Type ℓ} {E : Type κ} → Result (Unit {0}) E → Result B E → Result B E
m >> k = m >>= λ _. k

-- `if !test { return Err(e) }`.
abbrev pub ensure {κ} : {E : Type κ} → Bool → E → Result (Unit {0}) E
ensure true e = ok tt
ensure false e = err e

abbrev pub ok_or {ℓ κ} : {A : Type ℓ} {E : Type κ} → Option A → E → Result A E
ok_or none e = err e
ok_or (some a) e = ok a

-- Rust's `map_err` onto one error.
abbrev pub or_err {ℓ κ μ} : {A : Type ℓ} {D : Type κ} {E : Type μ} → Result A D → E → Result A E
or_err (ok a) e = ok a
or_err (err d) e = err e

abbrev pub is_ok {ℓ κ} : {A : Type ℓ} {E : Type κ} → Result A E → Bool
is_ok (ok a) = true
is_ok (err e) = false

pub Result-cases {ℓ κ} :
    {A : Type ℓ} {E : Type κ} (r : Result A E) → ((a : A) × (r ≡ ok a)) ⊎ ((e : E) × (r ≡ err e))
Result-cases (ok a) = inl (a, refl)
Result-cases (err e) = inr (e, refl)

-- What a result that is `ok` says of its steps.
pub bound {ℓ κ μ} :
    {A : Type ℓ} {B : Type κ} {E : Type μ} (r : Result A E) (f : A → Result B E) {b : B}
    → (r >>= f) ≡ ok b
    → (a : A) × (r ≡ ok a) × (f a ≡ ok b)
bound (ok a) f h = (a, refl, h)
bound (err e) f h = absurd (cc h)

pub passed {κ μ} :
    {B : Type κ} {E : Type μ} (t : Bool) (e : E) (r : Result B E) {b : B}
    → (ensure t e >> r) ≡ ok b
    → (t ≡ true) × (r ≡ ok b)
passed true e r h = (refl, h)
passed false e r h = absurd (cc h)

pub or_err-ok {ℓ κ μ} :
    {A : Type ℓ} {D : Type κ} {E : Type μ} (r : Result A D) (e : E) {a : A}
    → or_err r e ≡ ok a
    → r ≡ ok a
or_err-ok (ok a) e h = ground arith
or_err-ok (err d) e h = absurd (cc h)

pub ok_injective {ℓ κ} :
    {A : Type ℓ} {E : Type κ} {a b : A} → Path (Result A E) (ok a) (ok b) → a ≡ b
ok_injective h = ground arith

pub unit_ok {ℓ κ} :
    {A : Type ℓ} {E : Type κ} (r : Result (Unit {0}) E) (k : Result A E) {a : A}
    → (r >> k) ≡ ok a
    → (r ≡ ok tt) × (k ≡ ok a)
unit_ok (ok u) k h = (refl, h)
unit_ok (err e) k h = absurd (cc h)

pub ok_or-ok {ℓ κ} :
    {A : Type ℓ} {E : Type κ} (o : Option A) (e : E) {a : A} → ok_or o e ≡ ok a → o ≡ some a
ok_or-ok (some a) e h = ground arith
ok_or-ok none e h = absurd (cc h)

pub err_injective {ℓ κ} :
    {A : Type ℓ} {E : Type κ} {d e : E} → Path (Result A E) (err d) (err e) → d ≡ e
err_injective h = ground arith
