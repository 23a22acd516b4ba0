-- ===== src/Pqroute/Canonical/Parsing.antt =====
-- The canonical text of a value is read back to the value, with the entries of its objects in order.
use sk_core.Prelude.{
  ℕ, zero, suc, ◌+◌, ◌≤◌, ◌≡◌, refl, ap, ◌∙◌, true, false, Option, some, List, [], ◌∷◌, ◌++◌,
  length, arith, Bool-cases, inl, inr, ◌==◌, some_injective,
}
use mathlib.Core.List.{append_assoc}
use mathlib.Core.Path.{subst}
use sk_core.Prelude.Bytes.{Bytes, Text}
use sk_core.Prelude.Texts.{text_eq}
use sk_core.Prelude.Maps.{strip_prefix}
use sk_core.Json.{
  Value, Items, Fields, SerdeJson, null, bool, number, string, array, object, nil, cons, end, field,
}
use sk_core.Json.Access.{get_field}
use sk_core.Pqroute.Canonical.{
  sort_keys, encode_string_ascii, write_entries, canonical, written_fields, written_items,
  join_items,
}
use sk_core.Pqroute.Canonical.Order.{field_keys, keys_of-written_fields}
use sk_core.Pqroute.Canonical.Parser.{read_literal, read_value, read_items}
use sk_core.Pqroute.Canonical.Normal.{
  pick, normal, normal_items, normal_fields, size, size_items, size_fields, IsJson, AllJson,
  AllFieldsJson, NumberLaws,
}
use sk_core.Pqroute.Canonical.Members.{
  Stops, Each, Reads, IsKey, sort_keys-IsKey, size-sort_keys, read_members-write_entries,
}
use sk_core.Pqroute.Canonical.Starts.{
  Begins, read_number-canonical, read_text, bracket_later, no_bracket,
}

module _ {N : Type 0} (json : SerdeJson N) (read_number : Bytes → Option N)
    (laws : NumberLaws json read_number) where
  -- An object is read where the values of its members are.
  read_braces :
      (fs : Fields N) (ks : List Text) (fuel : ℕ) (rest : Bytes)
      → Each (IsKey fs) ks
      → Reads json read_number fs
      → ((j : Text) (v : Value N) → get_field j fs ≡ some v → size v + length ks ≤ fuel)
      → read_value read_number
          (suc fuel)
          (b'{' ∷ (write_entries (written_fields json fs) ks ++ (b'}' ∷ rest)))
        ≡ some (object (pick (normal_fields fs) ks), rest)
  unfolding read_value strip_prefix write_entries pick encode_string_ascii
  read_braces fs [] fuel rest keys reads room = refl
  read_braces fs (k ∷ []) fuel rest keys reads room =
      rw (read_members-write_entries json read_number fs fuel k [] rest keys reads room)
  read_braces fs (k ∷ j ∷ ks) fuel rest keys reads room =
      rw (read_members-write_entries json read_number fs fuel k (j ∷ ks) rest keys reads room)

  read_object :
      (fs : Fields N) (fuel : ℕ) (rest : Bytes)
      → AllFieldsJson fs
      → Reads json read_number fs
      → size_fields fs ≤ fuel
      → read_value read_number (suc fuel) (canonical json (object fs) ++ rest)
        ≡ some (normal (object fs), rest)
  unfolding canonical normal
  read_object fs fuel rest h reads room =
      rw
        (
          keys_of-written_fields json fs,
          append_assoc (write_entries (written_fields json fs) (sort_keys (field_keys fs)))
              (b'}' ∷ []) rest,
        )
        (read_braces fs (sort_keys (field_keys fs)) fuel rest (sort_keys-IsKey fs h) reads
          (λ k v e. let r = size-sort_keys k fs v e in omega arith))

  one-le-size : (v : Value N) → 1 ≤ size v
  unfolding size
  one-le-size null = omega arith
  one-le-size (bool b) = omega arith
  one-le-size (number n) = omega arith
  one-le-size (string s) = omega arith
  one-le-size (array xs) = omega arith
  one-le-size (object fs) = omega arith

  -- An array is read where its items are.
  bracketed :
      (bs rest : Bytes) (xs : Items N) (fuel : ℕ)
      → Begins (λ c. (b']' == c) ≡ false) bs
      → read_items read_number fuel bs ≡ some (xs, rest)
      → read_value read_number (suc fuel) (b'[' ∷ bs) ≡ some (array xs, rest)
  unfolding read_value
  bracketed bs rest xs fuel h e = rw (no_bracket json read_number laws bs h, e)

  read_brackets :
      (v : Value N) (vs : Items N) (fuel : ℕ) (rest : Bytes)
      → read_items read_number fuel (join_items (written_items json (cons v vs)) ++ (b']' ∷ rest))
        ≡ some (normal_items (cons v vs), rest)
      → read_value read_number (suc fuel) (canonical json (array (cons v vs)) ++ rest)
        ≡ some (normal (array (cons v vs)), rest)
  unfolding canonical written_items normal
  read_brackets v vs fuel rest e =
      let text = join_items (canonical json v ∷ written_items json vs) in
      ap (λ t. read_value read_number (suc fuel) (b'[' ∷ t)) (append_assoc text (b']' ∷ []) rest)
      ∙ bracketed (text ++ (b']' ∷ rest)) rest (normal_items (cons v vs)) fuel
          (bracket_later json read_number laws v (written_items json vs) (b']' ∷ rest)) e

  -- The last item, and one that others follow.
  read_last :
      (v : Value N) (fuel : ℕ) (rest : Bytes)
      → read_value read_number fuel (canonical json v ++ (b']' ∷ rest))
        ≡ some (normal v, b']' ∷ rest)
      → read_items read_number (suc fuel) (canonical json v ++ (b']' ∷ rest))
        ≡ some (cons (normal v) nil, rest)
  unfolding read_items strip_prefix
  read_last v fuel rest e = rw e

  read_more :
      (v w : Value N) (vs : Items N) (fuel : ℕ) (rest : Bytes)
      → read_value read_number fuel (
          canonical json v
          ++ (b',' ∷ (join_items (written_items json (cons w vs)) ++ (b']' ∷ rest))))
        ≡ some (normal v, b',' ∷ (join_items (written_items json (cons w vs)) ++ (b']' ∷ rest)))
      → read_items read_number fuel (join_items (written_items json (cons w vs)) ++ (b']' ∷ rest))
        ≡ some (normal_items (cons w vs), rest)
      → read_items read_number
          (suc fuel)
          (join_items (written_items json (cons v (cons w vs))) ++ (b']' ∷ rest))
        ≡ some (normal_items (cons v (cons w vs)), rest)
  unfolding read_items strip_prefix written_items join_items normal_items
  read_more v w vs fuel rest e e' = rw (
    append_assoc (canonical json v) (b',' ∷ join_items (written_items json (cons w vs)))
        (b']' ∷ rest),
    e,
    e',
  )

  mutual
    unfolding canonical normal normal_items written_items read_value read_literal strip_prefix size
        size_items size_fields get_field IsJson AllJson AllFieldsJson

    pub read_value_lem :
        (v : Value N) (fuel : ℕ) (rest : Bytes)
        → IsJson v
        → size v ≤ fuel
        → Stops rest
        → read_value read_number fuel (canonical json v ++ rest) ≡ some (normal v, rest)
    read_value_lem v zero rest h room stops = absurd (ground (arith, one-le-size v))
    read_value_lem null (suc fuel) rest h room stops = refl
    read_value_lem (bool true) (suc fuel) rest h room stops = refl
    read_value_lem (bool false) (suc fuel) rest h room stops = refl
    read_value_lem (number n) (suc fuel) rest h room stops =
        read_number-canonical json read_number laws n fuel rest stops
    read_value_lem (string s) (suc fuel) rest h room stops =
        read_text json read_number laws s fuel rest h
    read_value_lem (array nil) (suc fuel) rest h room stops = refl
    read_value_lem (array (cons v vs)) (suc fuel) rest h room stops =
        read_brackets v vs fuel rest
          (read_items_lem (cons v vs) fuel rest h (omega arith) (omega arith))
    read_value_lem (object fs) (suc fuel) rest h room stops =
        read_object fs fuel rest h.1
          (λ k v e fuel' room' rest' stops'. read_field_lem fs k v fuel' rest' h.1 e room' stops')
          (omega arith)

    read_items_lem :
        (xs : Items N) (fuel : ℕ) (rest : Bytes)
        → AllJson xs
        → size_items xs ≤ fuel
        → 1 ≤ size_items xs
        → read_items read_number fuel (join_items (written_items json xs) ++ (b']' ∷ rest))
          ≡ some (normal_items xs, rest)
    read_items_lem nil fuel rest h room some_left = absurd (omega arith)
    read_items_lem (cons v vs) zero rest h room some_left = absurd (omega arith)
    read_items_lem (cons v nil) (suc fuel) rest h room some_left =
        read_last v fuel rest (read_value_lem v fuel (b']' ∷ rest) h.0 (omega arith) refl)
    read_items_lem (cons v (cons w vs)) (suc fuel) rest h room some_left =
        read_more v w vs fuel rest (read_value_lem v fuel _ h.0 (omega arith) refl)
          (read_items_lem (cons w vs) fuel rest h.1 (omega arith) (omega arith))

    read_field_lem :
        (fs : Fields N) (k : Text) (v : Value N) (fuel : ℕ) (rest : Bytes)
        → AllFieldsJson fs
        → get_field k fs ≡ some v
        → size v ≤ fuel
        → Stops rest
        → read_value read_number fuel (canonical json v ++ rest) ≡ some (normal v, rest)
    read_field_lem end k v fuel rest h e room stops = cc
    read_field_lem (field j w fs) k v fuel rest h e room stops = elim (Bool-cases (text_eq k j)) [
      | inl same ↦
          let is : w ≡ v = some_injective (rw (get_field, same) at e) in
          subst
            (λ x. read_value read_number fuel (canonical json x ++ rest) ≡ some (normal x, rest)) is
            (read_value_lem w fuel rest h.1 (omega (arith, ap size is)) stops)
      | inr other ↦ read_field_lem fs k v fuel rest h.2 (rw (get_field, other) at e) room stops
    ]
