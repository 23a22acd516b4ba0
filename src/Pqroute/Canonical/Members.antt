-- ===== src/Pqroute/Canonical/Members.antt =====
-- The members of an object, written in the order of their keys, are read back in that order.
use sk_core.Prelude.{
  ℕ, zero, suc, ◌+◌, ◌≤◌, ◌≡◌, refl, ap, ◌∙◌, true, false, some, Option, List, [], ◌∷◌, ◌++◌,
  length, arith, Bool-cases, inl, inr, some_injective, if◌then◌else◌,
}
use mathlib.Core.List.{append_assoc}
use sk_core.Prelude.Bytes.{Bytes, Text}
use sk_core.Prelude.Texts.{text_lt, text_eq, text_eq_refl}
use sk_core.Prelude.Maps.{strip_prefix}
use sk_core.Prelude.Sorting.{insert_by, sort_by}
use sk_core.Json.{Value, Fields, SerdeJson, end, field}
use sk_core.Json.Access.{get_field}
use sk_core.Pqroute.Canonical.{
  sort_keys, encode_string_ascii, write_entries, get_written, canonical, written_fields,
}
use sk_core.Pqroute.Canonical.Order.{field_keys, get_written-eq_canonical}
use sk_core.Pqroute.Canonical.Reader.{AllChars, read_string}
use sk_core.Pqroute.Canonical.Reading.{read_string-encode_string_ascii}
use sk_core.Pqroute.Canonical.Parser.{in_number, read_value, read_members}
use sk_core.Pqroute.Canonical.Normal.{
  or_null, pick, normal, normal_fields, size, size_fields, AllFieldsJson,
}

-- What stands behind a value is not part of a number.
abbrev pub Stops : Bytes → Type 0
Stops [] = Unit {0}
Stops (c ∷ bs) = in_number c ≡ false

abbrev pub Each : (Text → Type 0) → List Text → Type 0
Each P [] = Unit {0}
Each P (k ∷ ks) = P k × Each P ks

Each-map : (P Q : Text → Type 0) (ks : List Text) → ((k : Text) → P k → Q k) → Each P ks → Each Q ks
Each-map P Q [] f h = tt
Each-map P Q (k ∷ ks) f h = (f k h.0, Each-map P Q ks f h.1)

insert_by-Each :
    (P : Text → Type 0) (k : Text) (ks : List Text)
    → P k
    → Each P ks
    → Each P (insert_by text_lt k ks)
unfolding insert_by
insert_by-Each P k [] p h = (p, tt)
insert_by-Each P k (j ∷ ks) p h =
    elim (text_lt j k) as (λ b. Each P (if b then j ∷ insert_by text_lt k ks else k ∷ j ∷ ks)) [
      | true ↦ (h.0, insert_by-Each P k ks p h.1)
      | false ↦ (p, h)
    ]

sort_by-Each : (P : Text → Type 0) (ks : List Text) → Each P ks → Each P (sort_by text_lt ks)
unfolding sort_by
sort_by-Each P [] h = tt
sort_by-Each P (k ∷ ks) h = insert_by-Each P k (sort_by text_lt ks) h.0 (sort_by-Each P ks h.1)

length-insert_by : (k : Text) (ks : List Text) → length (insert_by text_lt k ks) ≡ suc (length ks)
unfolding insert_by
length-insert_by k [] = refl
length-insert_by k (j ∷ ks) = ground (arith, length-insert_by k ks)

length-sort_by : (ks : List Text) → length (sort_by text_lt ks) ≡ length ks
unfolding sort_by
length-sort_by [] = refl
length-sort_by (k ∷ ks) = length-insert_by k (sort_by text_lt ks) ∙ ap suc (length-sort_by ks)

module _ {N : Type 0} where
  -- A key that has a value, and is a text that JSON can hold.
  abbrev pub IsKey : Fields N → Text → Type 0
  IsKey fs k = AllChars k × ((v : Value N) × (get_field k fs ≡ some v))

  field_keys-IsKey : (fs : Fields N) → AllFieldsJson fs → Each (IsKey fs) (field_keys fs)
  unfolding field_keys get_field AllFieldsJson
  field_keys-IsKey end h = tt
  field_keys-IsKey (field k v rest) h = (
    (h.0, (v, rw (text_eq_refl k))),
    Each-map (IsKey rest) (IsKey (field k v rest)) (field_keys rest)
        (λ j (chars, (w, e)). elim (Bool-cases (text_eq j k)) [
          | inl same ↦ (chars, (v, rw (get_field, same)))
          | inr other ↦ (chars, (w, rw (get_field, other) e))
        ])
        (field_keys-IsKey rest h.2),
  )

  pub sort_keys-IsKey :
      (fs : Fields N) → AllFieldsJson fs → Each (IsKey fs) (sort_keys (field_keys fs))
  unfolding sort_keys
  sort_keys-IsKey fs h = sort_by-Each (IsKey fs) (field_keys fs) (field_keys-IsKey fs h)

  length-field_keys : (fs : Fields N) → length (field_keys fs) ≤ size_fields fs
  unfolding field_keys size_fields
  length-field_keys end = omega arith
  length-field_keys (field k v rest) = omega (arith, length-field_keys rest)

  size-get_field :
      (k : Text) (fs : Fields N) (v : Value N)
      → get_field k fs ≡ some v
      → size v + length (field_keys fs) ≤ size_fields fs
  unfolding get_field field_keys size_fields
  size-get_field k end v e = cc
  size-get_field k (field j w rest) v e = elim (Bool-cases (text_eq k j)) [
    | inl same ↦
        omega (arith, length-field_keys rest, ap size (some_injective (rw (get_field, same) at e)))
    | inr other ↦ omega (arith, size-get_field k rest v (rw (get_field, other) at e))
  ]

  -- The keys in their order are as many, so that each value leaves room for all of them.
  pub size-sort_keys :
      (k : Text) (fs : Fields N) (v : Value N)
      → get_field k fs ≡ some v
      → size v + length (sort_keys (field_keys fs)) ≤ size_fields fs
  unfolding sort_keys
  size-sort_keys k fs v e = omega (arith, size-get_field k fs v e, length-sort_by (field_keys fs))

  pub get_field-normal_fields :
      (k : Text) (fs : Fields N) (v : Value N)
      → get_field k fs ≡ some v
      → or_null (get_field k (normal_fields fs)) ≡ normal v
  unfolding get_field normal_fields or_null
  get_field-normal_fields k end v e = cc
  get_field-normal_fields k (field j w rest) v e = elim (Bool-cases (text_eq k j)) [
    | inl same ↦ rw same (ap normal (some_injective (rw (get_field, same) at e)))
    | inr other ↦ rw other (get_field-normal_fields k rest v (rw (get_field, other) at e))
  ]

module _ {N : Type 0} (json : SerdeJson N) (read_number : Bytes → Option N) (fs : Fields N) where
  -- The text of every value of the object, and what stands behind it, is read as the value.
  abbrev pub Reads : Type 0
  Reads =
      (k : Text) (v : Value N)
      → get_field k fs ≡ some v
      → (fuel : ℕ) → size v ≤ fuel
      → (rest : Bytes) → Stops rest
      → read_value read_number fuel (canonical json v ++ rest) ≡ some (normal v, rest)

  abbrev written : Bytes → List Text → Bytes
  written rest ks = write_entries (written_fields json fs) ks ++ (b'}' ∷ rest)

  -- One member, up to what stands behind its value.
  member :
      (fuel : ℕ) (k : Text) (v : Value N) (rest : Bytes)
      → AllChars k
      → get_field k fs ≡ some v
      → Reads
      → size v ≤ fuel
      → Stops rest
      → (read_string
            (encode_string_ascii k ++ (b':' ∷ (get_written k (written_fields json fs) ++ rest)))
          ≡ some (k, b':' ∷ (get_written k (written_fields json fs) ++ rest)))
        × (read_value read_number fuel (get_written k (written_fields json fs) ++ rest)
            ≡ some (normal v, rest))
  member fuel k v rest chars e reads h stops = (
    read_string-encode_string_ascii k _ chars,
    rw (get_written-eq_canonical json k fs v e) (reads k v e fuel h rest stops),
  )

  pub read_members-write_entries :
      (fuel : ℕ) (k : Text) (ks : List Text) (rest : Bytes)
      → Each (IsKey fs) (k ∷ ks)
      → Reads
      → ((j : Text) (v : Value N) → get_field j fs ≡ some v → size v + length (k ∷ ks) ≤ fuel)
      → read_members read_number fuel (written rest (k ∷ ks))
        ≡ some (pick (normal_fields fs) (k ∷ ks), rest)
  unfolding read_members write_entries strip_prefix pick
  read_members-write_entries zero k ks rest ((_, (v, e)), _) reads room =
      let r = room k v e in absurd (omega arith)
  read_members-write_entries (suc fuel) k [] rest ((chars, (v, e)), _) reads room =
      let r = room k v e in
      let (a, b) = member fuel k v (b'}' ∷ rest) chars e reads (omega arith) refl in
      rw (
        append_assoc (encode_string_ascii k) (b':' ∷ get_written k (written_fields json fs))
            (b'}' ∷ rest),
        a,
        b,
        get_field-normal_fields k fs v e,
      )
  read_members-write_entries (suc fuel) k (j ∷ ks) rest ((chars, (v, e)), more) reads room =
      let r = room k v e in
      let es = written_fields json fs in
      let (a, b) =
        member fuel k v (b',' ∷ written rest (j ∷ ks)) chars e reads (omega arith) refl in
      rw (
        append_assoc (encode_string_ascii k)
            (b':' ∷ (get_written k es ++ (b',' ∷ write_entries es (j ∷ ks)))) (b'}' ∷ rest),
        append_assoc (get_written k es) (b',' ∷ write_entries es (j ∷ ks)) (b'}' ∷ rest),
        a,
        b,
        read_members-write_entries fuel j ks rest more reads
            (λ i w at. let q = room i w at in omega arith),
        get_field-normal_fields k fs v e,
      )
