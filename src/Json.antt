-- ===== src/Json.antt =====
-- The values of serde_json, and what the sources use of that crate. `N` is its type of numbers.
pub mod Access
use sk_core.Prelude.{ℕ, ◌≡◌, Bool, true, Option, some, if◌then◌else◌}
use sk_core.Prelude.Bytes.{Bytes, Text}
use sk_core.Prelude.Texts.{text_eq, text_lt}

mutual
  pub data Value (N : Type 0) : Type 0 where
    null : Value N
    bool : Bool → Value N
    number : N → Value N
    string : Text → Value N
    array : Items N → Value N
    object : Fields N → Value N

  pub data Items (N : Type 0) : Type 0 where
    nil : Items N
    cons : Value N → Items N → Items N

  pub data Fields (N : Type 0) : Type 0 where
    end : Fields N
    field : Text → Value N → Fields N → Fields N

pub record SerdeJson (N : Type 0) : Type 0 where
  -- `Value::from(u64)`.
  pub from_u64 : ℕ → N
  -- `Display for Number`.
  pub to_string : N → Bytes
  pub to_vec : Value N → Bytes
  pub from_slice : Bytes → Option (Value N)

module _ {N : Type 0} where
  -- `BTreeMap::insert`, on entries in the order of their keys.
  unfoldable pub btree_insert : Text → Value N → Fields N → Fields N
  btree_insert k v end = field k v end
  btree_insert k v (field j w rest) =
      if text_eq k j
      then field k v rest
      else if text_lt k j
      then field k v (field j w rest)
      else field j w (btree_insert k v rest)

  -- The keys rise strictly above `k`.
  abbrev Above : Text → Fields N → Type 0
  Above k end = Unit {0}
  Above k (field j v rest) = (text_lt k j ≡ true) × Above j rest

  -- An object of scalars whose keys rise strictly, which is what a `BTreeMap` of scalars writes.
  abbrev pub IsScalar : Value N → Type 0
  IsScalar (array _) = ⊥
  IsScalar (object _) = ⊥
  IsScalar _ = Unit {0}

  abbrev pub AllScalar : Fields N → Type 0
  AllScalar end = Unit {0}
  AllScalar (field k v rest) = IsScalar v × AllScalar rest

  abbrev pub IsFlat : Fields N → Type 0
  IsFlat end = Unit {0}
  IsFlat (field k v rest) = Above k rest × AllScalar (field k v rest)

-- Writing is lossless: the text of a flat object reads back as that object.
pub record JsonLaws {N : Type 0} (json : SerdeJson N) : Type 0 where
  pub reads_back :
      (fs : Fields N) → IsFlat fs → json.from_slice (json.to_vec (object fs)) ≡ some (object fs)
