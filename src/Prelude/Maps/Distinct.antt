-- ===== src/Prelude/Maps/Distinct.antt =====
-- Association lists with one entry for each key, as a `HashMap` has.
use Prim.Native.Nat.{ℕ}
use mathlib.Core.Path.{◌≡◌, refl, ◌∙◌, sym, subst₂}
use mathlib.Core.Logic.{inl, inr}
use mathlib.Core.Bool.{true, false}
use mathlib.Core.Option.{Option, none, some}
use mathlib.Core.List.{List, [], ◌∷◌}
use native.Mathlib.Omega.{arith}
use sk_core.Prelude.Tests.{◌==◌, if◌then◌else◌, Bool-cases, ==_iff, some_injective}
use sk_core.Prelude.Maps.{lookup, insert}

module _ {ℓ} {V : Type ℓ} where
  abbrev pub Distinct : List (ℕ × V) → Type ℓ
  Distinct [] = Unit
  Distinct (entry ∷ rest) = (lookup entry.0 rest ≡ none) × Distinct rest

  pub lookup-insert_if :
      (key other : ℕ) (new : V) (entries : List (ℕ × V))
      → lookup other (insert key new entries)
        ≡ (if other == key then some new else lookup other entries)
  unfolding lookup insert
  lookup-insert_if key other new [] = refl
  lookup-insert_if key other new (entry ∷ rest) =
      ground (arith, lookup-insert_if key other new rest)

  pub insert-Distinct :
      (key : ℕ) (new : V) (entries : List (ℕ × V))
      → Distinct entries
      → Distinct (insert key new entries)
  unfolding lookup insert
  insert-Distinct key new [] h = (refl, tt)
  insert-Distinct key new (entry ∷ rest) h =
      ground (arith, insert-Distinct key new rest, lookup-insert_if key entry.0 new rest)

  -- Every entry satisfies a predicate on keys and values.
  abbrev pub AllEntries {κ} : (ℕ → V → Type κ) → List (ℕ × V) → Type κ
  AllEntries P [] = Unit
  AllEntries P (entry ∷ rest) = P entry.0 entry.1 × AllEntries P rest

  pub AllEntries-insert {κ} :
      (P : ℕ → V → Type κ) (key : ℕ) (new : V) (entries : List (ℕ × V))
      → P key new
      → AllEntries P entries
      → AllEntries P (insert key new entries)
  unfolding insert
  AllEntries-insert P key new [] p h = (p, tt)
  AllEntries-insert P key new (entry ∷ rest) p h =
      elim (key == entry.0)
        as (λ b. AllEntries P (if b then (key, new) ∷ rest else entry ∷ insert key new rest)) [
          | true ↦ (p, h.1)
          | false ↦ (h.0, AllEntries-insert P key new rest p h.1)
        ]

  -- `self.insert` for each entry of another map in turn.
  unfoldable pub insert_all : List (ℕ × V) → List (ℕ × V) → List (ℕ × V)
  insert_all [] acc = acc
  insert_all (entry ∷ rest) acc = insert_all rest (insert entry.0 entry.1 acc)

  abbrev or_else : Option V → Option V → Option V
  or_else none o = o
  or_else (some v) o = some v

  lookup-insert_all :
      (key : ℕ) (entries acc : List (ℕ × V))
      → Distinct entries
      → lookup key (insert_all entries acc) ≡ or_else (lookup key entries) (lookup key acc)
  unfolding lookup insert_all
  lookup-insert_all key [] acc h = refl
  lookup-insert_all key (entry ∷ rest) acc h = ground (
    arith,
    lookup-insert_all key rest (insert entry.0 entry.1 acc),
    lookup-insert_if entry.0 key entry.1 acc,
  )

  pub lookup-insert_all_nil :
      (key : ℕ) (entries : List (ℕ × V))
      → Distinct entries
      → lookup key (insert_all entries []) ≡ lookup key entries
  unfolding lookup
  lookup-insert_all_nil key entries h =
      lookup-insert_all key entries [] h ∙ or_else_none (lookup key entries)
    where
      or_else_none : (o : Option V) → or_else o none ≡ o
      or_else_none none = refl
      or_else_none (some v) = refl

  pub AllEntries-lookup {κ} :
      (P : ℕ → V → Type κ) (key : ℕ) (v : V) (entries : List (ℕ × V))
      → AllEntries P entries
      → lookup key entries ≡ some v
      → P key v
  unfolding lookup
  AllEntries-lookup P key v [] h e = cc e
  AllEntries-lookup P key v (entry ∷ rest) h e = elim (Bool-cases (key == entry.0)) [
    | inl same ↦
        subst₂ P (sym ((==_iff key entry.0).0 same)) (some_injective (rw (same, lookup) at e)) h.0
    | inr other ↦ AllEntries-lookup P key v rest h.1 (rw (other, lookup) at e)
  ]
