-- ===== src/Prelude/Result.antt =====
-- Rust's `Result`, with `?` as the bind of a `do` block.
use mathlib.Core.Path.{◌≡◌, refl}
use mathlib.Core.Bool.{Bool, true, false}
use mathlib.Core.Option.{Option, none, some}

pub data Result {ℓ κ} (Failure : Type ℓ) (Value : Type κ) : Type (ℓ ⊔ κ) where
  err : Failure → Result Failure Value
  ok : Value → Result Failure Value

-- `?` ends the function with the error, or hands the value on.
infixl 5 ◌>>=◌ ◌>>◌
abbrev pub ◌>>=◌ {ℓ κ μ} :
    {F : Type ℓ} {X : Type κ} {Y : Type μ} → Result F X → (X → Result F Y) → Result F Y
◌>>=◌ (err failure) next = err failure
◌>>=◌ (ok x) next = next x

abbrev pub ◌>>◌ {ℓ κ} : {F : Type ℓ} {Y : Type κ} → Result F (Unit {0}) → Result F Y → Result F Y
check >> rest = check >>= λ _. rest

-- `if !test { return Err(failure) }`.
abbrev pub ensure {ℓ} : {F : Type ℓ} → Bool → F → Result F (Unit {0})
ensure true failure = ok tt
ensure false failure = err failure

-- `Option::ok_or`.
abbrev pub ok_or {ℓ κ} : {F : Type ℓ} {X : Type κ} → Option X → F → Result F X
ok_or none failure = err failure
ok_or (some x) failure = ok x

-- A successful chain had a successful first step.
pub bind-ok {ℓ κ μ} :
    {F : Type ℓ} {X : Type κ} {Y : Type μ} (first : Result F X) (next : X → Result F Y) {y : Y}
    → ◌>>=◌ first next ≡ ok y
    → (x : X) × (first ≡ ok x) × (next x ≡ ok y)
bind-ok (err failure) next h = cc h
bind-ok (ok x) next h = (x, refl, h)
