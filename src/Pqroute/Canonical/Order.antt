-- ===== src/Pqroute/Canonical/Order.antt =====
-- The canonical text of an object does not depend on the order in which its entries stand.
use sk_core.Prelude.{
  ◌≡◌, refl, sym, ap, ◌∙◌, Option, some, none, List, [], ◌∷◌, inl, inr, Bool-cases, if◌then◌else◌,
  arith,
}
use sk_core.Prelude.Bytes.{Bytes, Text}
use sk_core.Prelude.Texts.{text_lt, text_eq, text_eq_iff, text_eq_refl, text_eq→eq}
use sk_core.Prelude.Texts.Order.{text_lt_total, text_eq_sym, text_lt_between}
use sk_core.Prelude.Sorting.{insert_by, sort_by, IsApart, insert_by-insert_by}
use sk_core.Json.{Value, Fields, SerdeJson, object, end, field}
use sk_core.Json.Access.{get_field}
use sk_core.Pqroute.Canonical.{
  sort_keys, get_written, write_entries, keys_of, canonical, written_fields,
}

keys-IsApart : (j k : Text) → IsApart text_lt j k
keys-IsApart j k = elim (Bool-cases (text_eq j k)) [
  | inl e ↦ inr (text_eq→eq j k e)
  | inr e ↦ inl (text_lt_total j k e)
]

module _ {N : Type 0} where
  -- No key has two entries.
  abbrev pub IsObject : Fields N → Type 0
  IsObject end = Unit {0}
  IsObject (field k v rest) = (get_field k rest ≡ none) × IsObject rest

  unfoldable pub field_keys : Fields N → List Text
  field_keys end = []
  field_keys (field k v rest) = k ∷ field_keys rest

  remove : Text → Fields N → Fields N
  remove k end = end
  remove k (field j v rest) = let cut = remove k rest in if text_eq k j then rest else field j v cut

  get_field-remove :
      (k j : Text) (fs : Fields N)
      → IsObject fs
      → get_field j (remove k fs) ≡ (if text_eq j k then none else get_field j fs)
  unfolding get_field remove
  get_field-remove k j end h = ground arith
  get_field-remove k j (field i v rest) h = ground (
    arith,
    text_eq_iff k i,
    text_eq_iff j i,
    text_eq_iff j k,
    text_eq_refl i,
    get_field-remove k j rest h.1,
  )

  remove-IsObject : (k : Text) (fs : Fields N) → IsObject fs → IsObject (remove k fs)
  unfolding get_field remove
  remove-IsObject k end h = tt
  remove-IsObject k (field i v rest) h =
      ground (arith, get_field-remove k i rest h.1, remove-IsObject k rest h.1)

  sort_keys-remove :
      (k : Text) (v : Value N) (fs : Fields N)
      → get_field k fs ≡ some v
      → sort_keys (field_keys fs) ≡ insert_by text_lt k (sort_keys (field_keys (remove k fs)))
  unfolding get_field remove field_keys sort_keys sort_by
  sort_keys-remove k v end e = cc
  sort_keys-remove k v (field i w rest) e = elim (Bool-cases (text_eq k i)) [
    | inl same ↦
        rw same
          (ap (λ x. insert_by text_lt x (sort_keys (field_keys rest))) (sym (text_eq→eq k i same)))
    | inr other ↦ rw other (
        ap (insert_by text_lt i) (sort_keys-remove k v rest (rw (get_field, other) at e))
        ∙ insert_by-insert_by text_lt i k (sort_keys (field_keys (remove k rest))) text_lt_between
            (keys-IsApart i k))
  ]

  sort_keys-field_keys :
      (fs gs : Fields N)
      → IsObject fs
      → IsObject gs
      → ((k : Text) → get_field k fs ≡ get_field k gs)
      → sort_keys (field_keys fs) ≡ sort_keys (field_keys gs)
  unfolding get_field field_keys sort_keys sort_by
  sort_keys-field_keys end end h h' same = refl
  sort_keys-field_keys end (field i w rest) h h' same =
      cc (same i ∙ ap (λ b. if b then some w else get_field i rest) (text_eq_refl i))
  sort_keys-field_keys (field k v rest) gs h h' same =
      let found : get_field k gs ≡ some v =
        sym (same k) ∙ ap (λ b. if b then some v else get_field k rest) (text_eq_refl k) in
      ap (insert_by text_lt k)
        (sort_keys-field_keys rest (remove k gs) h.1 (remove-IsObject k gs h') others)
      ∙ sym (sort_keys-remove k v gs found)
    where
      others : (j : Text) → get_field j rest ≡ get_field j (remove k gs)
      others j = elim (Bool-cases (text_eq j k)) [
        | inl e ↦
            ap (λ x. get_field x rest) (text_eq→eq j k e)
            ∙ h.0
            ∙ sym (get_field-remove k j gs h' ∙ ap (λ b. if b then none else get_field j gs) e)
        | inr e ↦
            ap (λ b. if b then some v else get_field j rest) (sym e)
            ∙ same j
            ∙ sym (get_field-remove k j gs h' ∙ ap (λ b. if b then none else get_field j gs) e)
      ]

write_entries-alike :
    (es es' : List (Text × Bytes)) (ks : List Text)
    → ((k : Text) → get_written k es ≡ get_written k es')
    → write_entries es ks ≡ write_entries es' ks
unfolding write_entries
write_entries-alike es es' [] same = refl
write_entries-alike es es' (k ∷ []) same = rw (same k)
write_entries-alike es es' (k ∷ j ∷ ks) same = rw (same k, write_entries-alike es es' (j ∷ ks) same)

module _ {N : Type 0} (json : SerdeJson N) where
  pub keys_of-written_fields : (fs : Fields N) → keys_of (written_fields json fs) ≡ field_keys fs
  unfolding written_fields field_keys
  keys_of-written_fields end = refl
  keys_of-written_fields (field k v rest) = ap (λ x. k ∷ x) (keys_of-written_fields rest)

  written : Option (Value N) → Bytes
  written none = []
  written (some v) = canonical json v

  get_written-written_fields :
      (k : Text) (fs : Fields N) → get_written k (written_fields json fs) ≡ written (get_field k fs)
  unfolding written_fields get_written get_field written
  get_written-written_fields k end = refl
  get_written-written_fields k (field j v rest) =
      ground (arith, text_eq_sym j k, get_written-written_fields k rest)

  pub get_written-eq_canonical :
      (k : Text) (fs : Fields N) (v : Value N)
      → get_field k fs ≡ some v
      → get_written k (written_fields json fs) ≡ canonical json v
  unfolding written
  get_written-eq_canonical k fs v e = get_written-written_fields k fs ∙ ap written e

  -- Two objects that have no key twice and the same value under every key have the same canonical
  -- text, in whatever order their entries stand.
  canonical-get_field :
      (fs gs : Fields N)
      → IsObject fs
      → IsObject gs
      → ((k : Text) → get_field k fs ≡ get_field k gs)
      → canonical json (object fs) ≡ canonical json (object gs)
  unfolding canonical
  canonical-get_field fs gs h h' same = rw (
    keys_of-written_fields fs,
    keys_of-written_fields gs,
    sort_keys-field_keys fs gs h h' same,
    write_entries-alike (written_fields json fs) (written_fields json gs)
        (sort_keys (field_keys gs))
        (λ k.
          get_written-written_fields k fs
          ∙ ap written (same k)
          ∙ sym (get_written-written_fields k gs)),
  )
