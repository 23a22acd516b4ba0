-- ===== src/Pqroute/Canonical/Normal.antt =====
-- A JSON value with the entries of its objects in the order of their keys.
use sk_core.Prelude.{ℕ, ◌+◌, ◌≡◌, ◌≢◌, true, Option, some, none, List, [], ◌∷◌}
use sk_core.Prelude.Bytes.{Bytes, Text}
use sk_core.Json.{
  Value, Items, Fields, SerdeJson, null, bool, number, string, array, object, nil, cons, end, field,
}
use sk_core.Json.Access.{get_field}
use sk_core.Pqroute.Canonical.{sort_keys}
use sk_core.Pqroute.Canonical.Order.{IsObject, field_keys}
use sk_core.Pqroute.Canonical.Reader.{AllChars}
use sk_core.Pqroute.Canonical.Parser.{in_number}

module _ {N : Type 0} where
  unfoldable pub or_null : Option (Value N) → Value N
  or_null none = null
  or_null (some v) = v

  -- The entries under the keys of a list, in the order of the list.
  unfoldable pub pick : Fields N → List Text → Fields N
  unfolding or_null
  pick fs [] = end
  pick fs (k ∷ ks) = field k (or_null (get_field k fs)) (pick fs ks)

  unfoldable mutual
    unfolding pick sort_keys

    pub normal : Value N → Value N
    normal null = null
    normal (bool b) = bool b
    normal (number n) = number n
    normal (string s) = string s
    normal (array xs) = array (normal_items xs)
    normal (object fs) = object (pick (normal_fields fs) (sort_keys (field_keys fs)))

    pub normal_items : Items N → Items N
    normal_items nil = nil
    normal_items (cons v rest) = cons (normal v) (normal_items rest)

    pub normal_fields : Fields N → Fields N
    normal_fields end = end
    normal_fields (field k v rest) = field k (normal v) (normal_fields rest)

  -- How often a reader calls itself on the text of a value.
  unfoldable mutual
    pub size : Value N → ℕ
    size null = 1
    size (bool b) = 1
    size (number n) = 1
    size (string s) = 1
    size (array xs) = size_items xs + 1
    size (object fs) = size_fields fs + 1

    pub size_items : Items N → ℕ
    size_items nil = 0
    size_items (cons v rest) = size v + size_items rest + 1

    pub size_fields : Fields N → ℕ
    size_fields end = 0
    size_fields (field k v rest) = size v + size_fields rest + 1

  -- What a JSON document can hold: texts of Unicode scalar values, and objects that have no key twice.
  unfoldable mutual
    pub IsJson : Value N → Type 0
    IsJson null = Unit {0}
    IsJson (bool b) = Unit {0}
    IsJson (number n) = Unit {0}
    IsJson (string s) = AllChars s
    IsJson (array xs) = AllJson xs
    IsJson (object fs) = IsObject fs × AllFieldsJson fs

    pub AllJson : Items N → Type 0
    AllJson nil = Unit {0}
    AllJson (cons v rest) = IsJson v × AllJson rest

    pub AllFieldsJson : Fields N → Type 0
    AllFieldsJson end = Unit {0}
    AllFieldsJson (field k v rest) = AllChars k × IsJson v × AllFieldsJson rest

abbrev pub AllInNumber : Bytes → Type 0
AllInNumber [] = Unit {0}
AllInNumber (c ∷ bs) = (in_number c ≡ true) × AllInNumber bs

-- What `Display for Number` writes is a number of JSON, and can be read back.
pub record NumberLaws {N : Type 0} (json : SerdeJson N) (read_number : Bytes → Option N)
    : Type 0 where
  pub has_digits : (n : N) → json.to_string n ≢ []
  pub digits : (n : N) → AllInNumber (json.to_string n)
  pub read_back : (n : N) → read_number (json.to_string n) ≡ some n
