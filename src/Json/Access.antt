-- ===== src/Json/Access.antt =====
-- How the sources read and build values: the accessors of `serde_json::Value`, and its numbers.
use sk_core.Prelude.{ℕ, ◌≡◌, Bool, true, false, Option, none, some, if◌then◌else◌}
use sk_core.Prelude.Bytes.{Text, IsU64}
use sk_core.Prelude.Texts.{text_eq}
use sk_core.Json.{Value, Fields, null, number, string, object, end, field, SerdeJson}

-- The numbers of serde_json: `as_u64`, `as_f64`, and `Number::from_f64`, which refuses what is not
-- finite.
pub record JsonNumbers (N F : Type 0) : Type 0 where
  pub as_u64 : N → Option ℕ
  pub as_f64 : N → Option F
  pub from_f64 : F → Option N

-- A `u64` and a finite `f64` are read back; what `as_u64` gives is a `u64`, and what `as_f64` gives is
-- finite.
pub record JsonNumbersLaws {N F : Type 0} (json : SerdeJson N) (numbers : JsonNumbers N F)
    : Type 0 where
  pub as_u64-from_u64 : (n : ℕ) → IsU64 n → numbers.as_u64 (json.from_u64 n) ≡ some n
  pub as_f64-from_f64 : (x : F) (n : N) → numbers.from_f64 x ≡ some n → numbers.as_f64 n ≡ some x
  pub as_u64-IsU64 : (n : N) (k : ℕ) → numbers.as_u64 n ≡ some k → IsU64 k
  pub as_f64_finite :
      (n : N) (x : F) → numbers.as_f64 n ≡ some x → (m : N) × (numbers.from_f64 x ≡ some m)

module _ {N : Type 0} where
  unfoldable pub get_field : Text → Fields N → Option (Value N)
  get_field k end = none
  get_field k (field j v rest) = if text_eq k j then some v else get_field k rest

  -- `Value::get` with a text: only objects have entries.
  unfoldable pub get : Text → Value N → Option (Value N)
  unfolding get_field
  get k (object fs) = get_field k fs
  get k _ = none

  unfoldable pub as_str : Value N → Option Text
  as_str (string s) = some s
  as_str _ = none

  unfoldable pub as_object : Value N → Option (Fields N)
  as_object (object fs) = some fs
  as_object _ = none

  unfoldable pub is_null : Value N → Bool
  is_null null = true
  is_null _ = false

  module _ {F : Type 0} (numbers : JsonNumbers N F) where
    unfoldable pub value_as_u64 : Value N → Option ℕ
    value_as_u64 (number n) = numbers.as_u64 n
    value_as_u64 _ = none

    unfoldable pub value_as_f64 : Value N → Option F
    value_as_f64 (number n) = numbers.as_f64 n
    value_as_f64 _ = none

    -- `Value::from(f64)`.
    unfoldable pub value_from_f64 : F → Value N
    value_from_f64 x = elim (numbers.from_f64 x) [ none ↦ null | some n ↦ number n ]
