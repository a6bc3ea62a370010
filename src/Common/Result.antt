-- ===== src/Common/Result.antt =====
-- Fallible code: the exceptions that the program raises or lets through, and results.
use mathlib.Core.Path.{◌≡◌, refl}
use mathlib.Core.Logic.{◌⊎◌, inl, inr}

pub data Error : Type 0 where
  value_error key_error type_error attribute_error name_error assertion_error : Error
  lookup_error index_error stop_iteration : Error
  storage_error pos_key_error auth_error wrong_key_error : Error
  model_exception field_exception invalid_queue_operation : Error

pub data Result {ℓ} (A : Type ℓ) : Type ℓ where
  ok : A → Result A
  err : Error → Result A

-- An exception ends a `do` block with the error.
infixl 5 ◌>>=◌
abbrev pub ◌>>=◌ {ℓ κ} : {X : Type ℓ} {Y : Type κ} → Result X → (X → Result Y) → Result Y
err x >>= k = err x
ok r >>= k = k r

-- A block that does not raise went past its first line.
pub >>=-eq-ok {ℓ κ} :
    {X : Type ℓ} {Y : Type κ} {y : Y} (first : Result X) (k : X → Result Y)
    → (first >>= k) ≡ ok y
    → (r : X) × (first ≡ ok r) × (k r ≡ ok y)
>>=-eq-ok (err x) k returned = cc
>>=-eq-ok (ok r) k returned = (r, refl, returned)

pub ok-injective {ℓ} : {X : Type ℓ} {x y : X} → ok x ≡ ok y → x ≡ y
ok-injective same = cc

pub Result-cases_any {ℓ} :
    {X : Type ℓ} (r : Result X) → ((x : X) × (r ≡ ok x)) ⊎ ((e : Error) × (r ≡ err e))
Result-cases_any (ok x) = inl (x, refl)
Result-cases_any (err e) = inr (e, refl)

pub Result-cases : (r : Result (Unit {0})) → (r ≡ ok tt) ⊎ ((e : Error) × (r ≡ err e))
Result-cases (ok tt) = inl refl
Result-cases (err e) = inr (e, refl)
