-- ===== src/Pqroute/Canonical/Parser.antt =====
-- A reader of JSON values (RFC 8259) that knows nothing of how they were written. It allows no white space.
use sk_core.Prelude.{
  ℕ, zero, suc, Bool, true, false, ◌||◌, ◌&&◌, Option, some, none, [], ◌∷◌, leb, ◌==◌,
  if◌then◌else◌,
}
use sk_core.Prelude.Bytes.{Bytes, Text, codes}
use sk_core.Prelude.Maps.{strip_prefix}
use sk_core.Json.{
  Value, Items, Fields, null, bool, number, string, array, object, nil, cons, end, field,
}
use sk_core.Pqroute.Canonical.Reader.{read_string}

-- The characters that a number is written with.
unfoldable pub in_number : ℕ → Bool
in_number c =
    leb b'0' c && leb c b'9' || c == b'-' || c == b'+' || c == b'.' || c == b'e' || c == b'E'

-- The longest beginning that could be a number, and what stands behind it.
unfoldable pub span_number : Bytes → Bytes × Bytes
unfolding in_number
span_number [] = ([], [])
span_number (c ∷ bs) =
    let rest = span_number bs in if in_number c then (c ∷ rest.0, rest.1) else ([], c ∷ bs)

infixl 5 ◌>>=◌
abbrev pub ◌>>=◌ : {A B : Type 0} → Option A → (A → Option B) → Option B
none >>= f = none
some a >>= f = f a

module _ {N : Type 0} (read_number : Bytes → Option N) where
  unfoldable pub read_literal : Text → Value N → Bytes → Option (Value N × Bytes)
  read_literal word v bs = do rest ← strip_prefix word bs; some (v, rest)

  -- What follows an element of an array, or a member of an object, decides how it goes on.
  unfoldable mutual
    unfolding read_literal span_number

    pub read_value : ℕ → Bytes → Option (Value N × Bytes)
    read_value zero bs = none
    read_value (suc fuel) [] = none
    read_value (suc fuel) (c ∷ bs) =
        let items = read_items fuel bs in
        let members = read_members fuel bs in
        if c == b'"'
        then (do (s, rest) ← read_string (c ∷ bs); some (string s, rest))
        else if c == b'['
        then elim (strip_prefix (codes "]") bs) [
          | some rest ↦ some (array nil, rest)
          | none ↦ items >>= λ (vs, rest). some (array vs, rest)
        ]
        else if c == b'{'
        then elim (strip_prefix (codes "}") bs) [
          | some rest ↦ some (object end, rest)
          | none ↦ members >>= λ (fs, rest). some (object fs, rest)
        ]
        else if c == b'n'
        then read_literal (codes "null") null (c ∷ bs)
        else if c == b't'
        then read_literal (codes "true") (bool true) (c ∷ bs)
        else if c == b'f'
        then read_literal (codes "false") (bool false) (c ∷ bs)
        else (do
          let (digits, rest) = span_number (c ∷ bs)
          n ← read_number digits
          some (number n, rest))

    pub read_items : ℕ → Bytes → Option (Items N × Bytes)
    read_items zero bs = none
    read_items (suc fuel) bs = do
      (v, rest) ← read_value fuel bs
      elim (strip_prefix (codes ",") rest) [
        | some more ↦ read_items fuel more >>= λ (vs, behind). some (cons v vs, behind)
        | none ↦ strip_prefix (codes "]") rest >>= λ behind. some (cons v nil, behind)
      ]

    pub read_members : ℕ → Bytes → Option (Fields N × Bytes)
    read_members zero bs = none
    read_members (suc fuel) bs = do
      (k, at) ← read_string bs
      value ← strip_prefix (codes ":") at
      (v, rest) ← read_value fuel value
      elim (strip_prefix (codes ",") rest) [
        | some more ↦ read_members fuel more >>= λ (fs, behind). some (field k v fs, behind)
        | none ↦ strip_prefix (codes "}") rest >>= λ behind. some (field k v end, behind)
      ]
