-- ===== src/DmSession/Snapshot/Secrets.antt =====
-- The epoch secrets through a snapshot: `secrets_value` against `restore_secrets`.
use sk_core.Prelude.{
  ℕ, ◌≡◌, refl, ap, ◌∙◌, none, some, List, [], ◌∷◌, length, ◌==◌, if◌then◌else◌, arith, eq→==,
}
use sk_core.Prelude.Bytes.{Bytes, IsU64}
use sk_core.Prelude.Maps.{lookup, insert}
use sk_core.Prelude.Maps.Distinct.{Distinct, AllEntries, insert_all, lookup-insert_all_nil}
use sk_core.Prelude.Decimal.{decimal, parse_u64-decimal, text_eq-decimal}
use sk_core.Prelude.Texts.{text_eq, text_lt}
use sk_core.Prelude.Outcome.{ok}
use sk_core.Json.{Fields, SerdeJson, string, end, field, btree_insert}
use sk_core.Json.Access.{JsonNumbers, as_str}
use sk_core.DmSession.Snapshot.{Hex, HexLaws, secrets_value, restore_secrets}

-- An epoch that fits a `u64`, and a secret as long as the array that holds it.
abbrev pub IsSecret : ℕ → Bytes → Type 0
IsSecret epoch secret = IsU64 epoch × (length secret ≡ 32)

-- An entry put in the place that the order of the decimal texts gives it.
place : ℕ → Bytes → List (ℕ × Bytes) → List (ℕ × Bytes)
place e s [] = (e, s) ∷ []
place e s (entry ∷ rest) =
    if text_eq (decimal e) (decimal entry.0)
    then (e, s) ∷ rest
    else if text_lt (decimal e) (decimal entry.0)
    then (e, s) ∷ entry ∷ rest
    else entry ∷ place e s rest

placed : List (ℕ × Bytes) → List (ℕ × Bytes)
placed [] = []
placed (entry ∷ rest) = place entry.0 entry.1 (placed rest)

lookup-place :
    (key e : ℕ) (s : Bytes) (m : List (ℕ × Bytes))
    → IsU64 e
    → AllEntries IsSecret m
    → lookup key (place e s m) ≡ (if key == e then some s else lookup key m)
unfolding lookup place
lookup-place key e s [] he hm = refl
lookup-place key e s (entry ∷ rest) he hm =
    ground (arith, text_eq-decimal e entry.0 he hm.0.0, lookup-place key e s rest he hm.1)

place-Distinct :
    (e : ℕ) (s : Bytes) (m : List (ℕ × Bytes))
    → IsU64 e
    → AllEntries IsSecret m
    → lookup e m ≡ none
    → Distinct m
    → Distinct (place e s m)
unfolding lookup place
place-Distinct e s [] he hm new d = (refl, tt)
place-Distinct e s (entry ∷ rest) he hm new d = ground (
  arith,
  text_eq-decimal e entry.0 he hm.0.0,
  lookup-place entry.0 e s rest he hm.1,
  place-Distinct e s rest he hm.1,
)

place-AllEntries :
    (e : ℕ) (s : Bytes) (m : List (ℕ × Bytes))
    → IsSecret e s
    → AllEntries IsSecret m
    → AllEntries IsSecret (place e s m)
unfolding place
place-AllEntries e s [] h hm = (h, tt)
place-AllEntries e s (entry ∷ rest) h hm = ground (arith, place-AllEntries e s rest h hm.1)

placed-AllEntries : (m : List (ℕ × Bytes)) → AllEntries IsSecret m → AllEntries IsSecret (placed m)
unfolding placed
placed-AllEntries [] h = tt
placed-AllEntries (entry ∷ rest) h =
    place-AllEntries entry.0 entry.1 (placed rest) h.0 (placed-AllEntries rest h.1)

lookup-placed :
    (key : ℕ) (m : List (ℕ × Bytes)) → AllEntries IsSecret m → lookup key (placed m) ≡ lookup key m
unfolding lookup placed
lookup-placed key [] h = refl
lookup-placed key (entry ∷ rest) h =
    lookup-place key entry.0 entry.1 (placed rest) h.0.0 (placed-AllEntries rest h.1)
    ∙ ap (λ o. if key == entry.0 then some entry.1 else o) (lookup-placed key rest h.1)

placed-Distinct : (m : List (ℕ × Bytes)) → AllEntries IsSecret m → Distinct m → Distinct (placed m)
unfolding placed
placed-Distinct [] h d = tt
placed-Distinct (entry ∷ rest) h d =
    place-Distinct entry.0 entry.1 (placed rest) h.0.0 (placed-AllEntries rest h.1)
      (lookup-placed entry.0 rest h.1 ∙ d.0) (placed-Distinct rest h.1 d.1)

module _ {N F : Type 0} (json : SerdeJson N) (numbers : JsonNumbers N F) (hex : Hex) where
  -- The entries in their order, written one by one.
  written : List (ℕ × Bytes) → Fields N
  written [] = end
  written (entry ∷ rest) = field (decimal entry.0) (string (hex.encode entry.1)) (written rest)

  written-place :
      (e : ℕ) (s : Bytes) (m : List (ℕ × Bytes))
      → btree_insert (decimal e) (string (hex.encode s)) (written m) ≡ written (place e s m)
  unfolding written place btree_insert
  written-place e s [] = refl
  written-place e s (entry ∷ rest) = ground (arith, written-place e s rest)

  secrets_value-written :
      (m : List (ℕ × Bytes)) → secrets_value json numbers hex m ≡ written (placed m)
  unfolding secrets_value placed
  secrets_value-written [] = unfold written in refl
  secrets_value-written (entry ∷ rest) =
      rw (secrets_value-written rest) (written-place entry.0 entry.1 (placed rest))

  restore_secrets-written :
      (laws : HexLaws hex) (m acc : List (ℕ × Bytes))
      → AllEntries IsSecret m
      → restore_secrets json numbers hex (written m) acc ≡ ok (insert_all m acc)
  unfolding restore_secrets written insert_all as_str
  restore_secrets-written laws [] acc h = refl
  restore_secrets-written laws (entry ∷ rest) acc h = rw (
    parse_u64-decimal entry.0 h.0.0,
    laws.decode-encode entry.1,
    eq→== (length entry.1) 32 h.0.1,
    restore_secrets-written laws rest (insert entry.0 entry.1 acc) h.1,
  )

  -- The secrets of a snapshot are restored to a map that answers every epoch alike.
  pub restore_secrets-secrets_value :
      (laws : HexLaws hex) (m : List (ℕ × Bytes))
      → AllEntries IsSecret m
      → Distinct m
      → (m' : List (ℕ × Bytes)) × (restore_secrets json numbers hex
            (secrets_value json numbers hex m)
            []
          ≡ ok m')
        × ((epoch : ℕ) → lookup epoch m' ≡ lookup epoch m)
  restore_secrets-secrets_value laws m h d = (
    insert_all (placed m) [],
    rw (secrets_value-written m)
        (restore_secrets-written laws (placed m) [] (placed-AllEntries m h)),
    λ epoch.
        lookup-insert_all_nil epoch (placed m) (placed-Distinct m h d) ∙ lookup-placed epoch m h,
  )
