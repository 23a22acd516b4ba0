-- ===== src/Prelude/Maps.antt =====
-- A `HashMap` as an association list with one entry for each key, and `str` prefixes.
pub mod Distinct
use Prim.Native.Nat.{ℕ}
use mathlib.Core.Path.{◌≡◌, refl}
use mathlib.Core.Logic.{◌≢◌}
use mathlib.Core.Option.{Option, none, some}
use mathlib.Core.List.{List, [], ◌∷◌, ◌++◌}
use native.Mathlib.Omega.{arith}
use sk_core.Prelude.Tests.{◌==◌, if◌then◌else◌}

module _ {ℓ} {V : Type ℓ} where
  unfoldable pub lookup : ℕ → List (ℕ × V) → Option V
  lookup key [] = none
  lookup key (entry ∷ rest) = if key == entry.0 then some entry.1 else lookup key rest

  -- The new value takes the place of the old one, or the entry goes to the end.
  pub insert : ℕ → V → List (ℕ × V) → List (ℕ × V)
  insert key new [] = (key, new) ∷ []
  insert key new (entry ∷ rest) =
      if key == entry.0 then (key, new) ∷ rest else entry ∷ insert key new rest

  pub lookup-nil : (key : ℕ) → lookup key [] ≡ none
  unfolding lookup
  lookup-nil key = refl

  pub lookup-insert_self :
      (key : ℕ) (new : V) (entries : List (ℕ × V)) → lookup key (insert key new entries) ≡ some new
  unfolding lookup insert
  lookup-insert_self key new [] = ground arith
  lookup-insert_self key new (entry ∷ rest) = ground (arith, lookup-insert_self key new rest)

  pub lookup-insert_ne :
      (key other : ℕ) (new : V) (entries : List (ℕ × V))
      → key ≢ other
      → lookup other (insert key new entries) ≡ lookup other entries
  unfolding lookup insert
  lookup-insert_ne key other new [] h = ground arith
  lookup-insert_ne key other new (entry ∷ rest) h =
      ground (arith, lookup-insert_ne key other new rest h)

-- `str::strip_prefix`.
unfoldable pub strip_prefix : List ℕ → List ℕ → Option (List ℕ)
strip_prefix [] s = some s
strip_prefix (c ∷ p) [] = none
strip_prefix (c ∷ p) (d ∷ s) = if c == d then strip_prefix p s else none

pub strip_prefix-append : (p s : List ℕ) → strip_prefix p (p ++ s) ≡ some s
unfolding strip_prefix
strip_prefix-append [] s = refl
strip_prefix-append (c ∷ p) s = ground (arith, strip_prefix-append p s)

pub strip_prefix-eq_some : (p s r : List ℕ) → strip_prefix p s ≡ some r → s ≡ p ++ r
unfolding strip_prefix
strip_prefix-eq_some [] s r h = ground arith
strip_prefix-eq_some (c ∷ p) [] r h = cc
strip_prefix-eq_some (c ∷ p) (d ∷ s) r h = ground (arith, strip_prefix-eq_some p s r)
