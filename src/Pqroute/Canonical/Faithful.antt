-- ===== src/Pqroute/Canonical/Faithful.antt =====
-- What the canonical text tells of a value: all but the order of the entries of its objects.
use sk_core.Prelude.{
  ℕ, ◌+◌, ◌≤◌, ◌≡◌, ◌↔◌, refl, sym, ap, ◌∙◌, true, false, Option, some, List, [], ◌∷◌, ◌++◌, arith,
  Bool-cases, inl, inr, some_injective,
}
use mathlib.Core.Path.{subst}
use sk_core.Prelude.Bytes.{Bytes, Text, codes}
use sk_core.Prelude.Texts.{text_eq}
use sk_core.Json.{
  Value, Items, Fields, SerdeJson, null, bool, number, string, array, object, nil, cons, end, field,
}
use sk_core.Json.Access.{get_field}
use sk_core.Pqroute.Canonical.{
  sort_keys, encode_string_ascii, write_entries, canonical, written_fields, written_items,
  join_items,
}
use sk_core.Pqroute.Canonical.Order.{field_keys, keys_of-written_fields, get_written-eq_canonical}
use sk_core.Pqroute.Canonical.Parser.{read_value}
use sk_core.Pqroute.Canonical.Normal.{
  pick, normal, normal_items, normal_fields, size, IsJson, AllJson, AllFieldsJson, NumberLaws,
}
use sk_core.Pqroute.Canonical.Members.{Stops, Each, IsKey, sort_keys-IsKey, get_field-normal_fields}
use sk_core.Pqroute.Canonical.Parsing.{read_value_lem}

module _ {N : Type 0} (json : SerdeJson N) where
  -- A printer that writes the entries of an object as they stand.
  mutual
    unfolding encode_string_ascii join_items

    print : Value N → Bytes
    print null = codes "null"
    print (bool true) = codes "true"
    print (bool false) = codes "false"
    print (number n) = json.to_string n
    print (string s) = encode_string_ascii s
    print (array xs) = b'[' ∷ (join_items (print_items xs) ++ (b']' ∷ []))
    print (object fs) = b'{' ∷ (print_fields fs ++ (b'}' ∷ []))

    print_items : Items N → List Bytes
    print_items nil = []
    print_items (cons v rest) = print v ∷ print_items rest

    print_fields : Fields N → Bytes
    print_fields end = []
    print_fields (field k v end) = encode_string_ascii k ++ (b':' ∷ print v)
    print_fields (field k v (field j w rest)) =
        encode_string_ascii k ++ (b':' ∷ (print v ++ (b',' ∷ print_fields (field j w rest))))

  -- The entries under keys that have values, where the values are printed as they are written.
  print_fields-pick :
      (fs : Fields N) (ks : List Text)
      → Each (IsKey fs) ks
      → ((k : Text) (v : Value N) → get_field k fs ≡ some v → print (normal v) ≡ canonical json v)
      → print_fields (pick (normal_fields fs) ks) ≡ write_entries (written_fields json fs) ks
  unfolding print_fields pick write_entries
  print_fields-pick fs [] keys printed = refl
  print_fields-pick fs (k ∷ []) ((_, (v, e)), _) printed =
      rw (get_field-normal_fields k fs v e, printed k v e, get_written-eq_canonical json k fs v e)
  print_fields-pick fs (k ∷ j ∷ ks) ((_, (v, e)), more) printed = rw (
    get_field-normal_fields k fs v e,
    printed k v e,
    get_written-eq_canonical json k fs v e,
    print_fields-pick fs (j ∷ ks) more printed,
  )

  mutual
    unfolding print print_items canonical written_items normal normal_items IsJson AllJson
        AllFieldsJson get_field

    print-normal : (v : Value N) → IsJson v → print (normal v) ≡ canonical json v
    print-normal null h = refl
    print-normal (bool true) h = refl
    print-normal (bool false) h = refl
    print-normal (number n) h = refl
    print-normal (string s) h = refl
    print-normal (array xs) h =
        ap (λ ws. b'[' ∷ (join_items ws ++ (b']' ∷ []))) (print_items-normal xs h)
    print-normal (object fs) h =
        ap (λ t. b'{' ∷ (t ++ (b'}' ∷ [])))
          (print_fields-pick fs (sort_keys (field_keys fs)) (sort_keys-IsKey fs h.1)
              (λ k v e. print-field fs k v h.1 e)
            ∙ ap (λ ks. write_entries (written_fields json fs) (sort_keys ks))
                (sym (keys_of-written_fields json fs)))

    print_items-normal :
        (xs : Items N) → AllJson xs → print_items (normal_items xs) ≡ written_items json xs
    print_items-normal nil h = refl
    print_items-normal (cons v rest) h =
        ap (λ w. w ∷ print_items (normal_items rest)) (print-normal v h.0)
        ∙ ap (λ ws. canonical json v ∷ ws) (print_items-normal rest h.1)

    print-field :
        (fs : Fields N) (k : Text) (v : Value N)
        → AllFieldsJson fs
        → get_field k fs ≡ some v
        → print (normal v) ≡ canonical json v
    print-field end k v h e = cc
    print-field (field j w fs) k v h e = elim (Bool-cases (text_eq k j)) [
      | inl same ↦
          subst (λ x. print (normal x) ≡ canonical json x)
            (some_injective (rw (get_field, same) at e)) (print-normal w h.1)
      | inr other ↦ print-field fs k v h.2 (rw (get_field, other) at e)
    ]

  module _ (read_number : Bytes → Option N) (laws : NumberLaws json read_number) where
    -- A reader of JSON, which is not told what to expect, gives back the value that a canonical text
    -- was written for, with the entries of its objects in the order of their keys, and what stands
    -- behind the text: whatever fuel it has, if as much as the value has parts. The value holds texts of
    -- Unicode scalar values and objects without double keys, the numbers of serde_json can be read
    -- back, and what stands behind does not go on like a number.
    pub read_value-canonical :
        (v : Value N) (fuel : ℕ) (rest : Bytes)
        → IsJson v
        → size v ≤ fuel
        → Stops rest
        → read_value read_number fuel (canonical json v ++ rest) ≡ some (normal v, rest)
    read_value-canonical v fuel rest h room stops =
        read_value_lem json read_number laws v fuel rest h room stops

    normal-of_canonical :
        (v w : Value N)
        → IsJson v
        → IsJson w
        → canonical json v ≡ canonical json w
        → normal v ≡ normal w
    normal-of_canonical v w hv hw e =
        let fuel = size v + size w in
        let a = read_value-canonical v fuel [] hv (omega arith) tt in
        let b = read_value-canonical w fuel [] hw (omega arith) tt in
        ap (λ q. q.0)
          (some_injective (sym a ∙ ap (λ t. read_value read_number fuel (t ++ [])) e ∙ b))

    -- Two JSON values, whose numbers serde_json can read back, have the same canonical text exactly if
    -- they are the same value when the entries of all objects stand in the order of their keys.
    pub canonical_iff :
        (v w : Value N)
        → IsJson v
        → IsJson w
        → (canonical json v ≡ canonical json w) ↔ (normal v ≡ normal w)
    canonical_iff v w hv hw = (
      normal-of_canonical v w hv hw,
      λ e. sym (print-normal v hv) ∙ ap print e ∙ print-normal w hw,
    )
