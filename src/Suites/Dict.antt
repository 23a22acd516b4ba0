-- ===== src/Suites/Dict.antt =====
-- `CryptoSuite::to_dict` of src/suites.rs: the JSON view of a suite.
use sk_core.Prelude.{
  ◌≡◌, refl, sym, ap, ◌∙◌, Bool, Option, some, none, List, [], ◌∷◌, some_injective, if◌then◌else◌,
}
use sk_core.Prelude.Bytes.{Text, codes}
use sk_core.Prelude.Texts.{text_eq, text_lt}
use sk_core.Json.{Value, Items, null, bool, string, array, object, nil, cons, end, btree_insert}
use sk_core.Json.Access.{get, get_field}
use sk_core.Suites.{
  CryptoSuite, SuiteKind, kem, sig, aead, kind_as_str, status_as_str, from_wire,
  suite_is_quantum_resistant, status_is_quantum_resistant,
}
use sk_core.Suites.Registered.{from_wire-status_as_str}

module _ {N : Type 0} where
  text_items : List Text → Items N
  text_items [] = nil
  text_items (t ∷ ts) = cons (string t) (text_items ts)

  optional_text : Option Text → Value N
  optional_text none = null
  optional_text (some t) = string t

  -- `json!` inserts its entries from the first to the last.
  pub to_dict : CryptoSuite → Value N
  to_dict s = object (
      btree_insert (codes "replaces") (optional_text s.replaces) (
        btree_insert (codes "quantum_resistant") (bool (suite_is_quantum_resistant s)) (
          btree_insert (codes "active") (bool s.active) (
            btree_insert (codes "description") (string s.description) (
              btree_insert (codes "fips_refs") (array (text_items s.fips_refs)) (
                btree_insert (codes "primitives") (array (text_items s.primitives)) (
                  btree_insert (codes "status") (string (status_as_str s.status)) (
                    btree_insert (codes "kind") (string (kind_as_str s.kind))
                      (btree_insert (codes "suite_id") (string s.suite_id) end)))))))))

  text_items_injective : (ts us : List Text) → text_items ts ≡ text_items us → ts ≡ us
  unfolding text_items
  text_items_injective [] [] e = refl
  text_items_injective [] (u ∷ us) e = cc
  text_items_injective (t ∷ ts) [] e = cc
  text_items_injective (t ∷ ts) (u ∷ us) e =
      let heads : ◌≡◌ {A = Value N} (string t) (string u) = cc in
      let head : t ≡ u = cc heads in
      let rest : text_items ts ≡ text_items us = cc e in
      let tail = text_items_injective ts us rest in cc (head, tail)

  optional_text_injective : (o p : Option Text) → optional_text o ≡ optional_text p → o ≡ p
  unfolding optional_text
  optional_text_injective none none e = refl
  optional_text_injective none (some t) e = cc
  optional_text_injective (some t) none e = cc
  optional_text_injective (some t) (some u) e = let k : t ≡ u = cc e in ap some k

  some_string_injective :
      (t u : Text) → ◌≡◌ {A = Option (Value N)} (some (string t)) (some (string u)) → t ≡ u
  some_string_injective t u e = cc

  some_bool_injective :
      (b c : Bool) → ◌≡◌ {A = Option (Value N)} (some (bool b)) (some (bool c)) → b ≡ c
  some_bool_injective b c e = cc

  some_array_injective :
      (a b : Items N) → ◌≡◌ {A = Option (Value N)} (some (array a)) (some (array b)) → a ≡ b
  some_array_injective a b e = cc

-- The kind that a wire name stands for.
kind_of : Text → SuiteKind
kind_of t = if text_eq t (codes "kem") then kem else if text_eq t (codes "sig") then sig else aead

kind_of-kind_as_str : (k : SuiteKind) → kind_of (kind_as_str k) ≡ k
unfolding kind_of kind_as_str text_eq
kind_of-kind_as_str kem = refl
kind_of-kind_as_str sig = refl
kind_of-kind_as_str aead = refl

module _ {N : Type 0} (s s' : CryptoSuite) (e : ◌≡◌ {A = Value N} (to_dict s) (to_dict s')) where
  same_entry : (key : Text) → get key (to_dict {N = N} s) ≡ get key (to_dict s')
  same_entry key = ap (get key) e

  same_id : s.suite_id ≡ s'.suite_id
  unfolding to_dict get get_field btree_insert text_eq text_lt
  same_id = some_string_injective s.suite_id s'.suite_id (same_entry (codes "suite_id"))

  same_kind : s.kind ≡ s'.kind
  unfolding to_dict get get_field btree_insert text_eq text_lt
  same_kind =
      sym (kind_of-kind_as_str s.kind)
      ∙ ap kind_of (
          some_string_injective (kind_as_str s.kind) (kind_as_str s'.kind)
            (same_entry (codes "kind")))
      ∙ kind_of-kind_as_str s'.kind

  same_status : s.status ≡ s'.status
  unfolding to_dict get get_field btree_insert text_eq text_lt
  same_status =
      sym (from_wire-status_as_str s.status)
      ∙ ap from_wire (
          some_string_injective (status_as_str s.status) (status_as_str s'.status)
            (same_entry (codes "status")))
      ∙ from_wire-status_as_str s'.status

  same_primitives : s.primitives ≡ s'.primitives
  unfolding to_dict get get_field btree_insert text_eq text_lt
  same_primitives =
      text_items_injective s.primitives s'.primitives
        (some_array_injective _ _ (same_entry (codes "primitives")))

  same_fips_refs : s.fips_refs ≡ s'.fips_refs
  unfolding to_dict get get_field btree_insert text_eq text_lt
  same_fips_refs =
      text_items_injective s.fips_refs s'.fips_refs
        (some_array_injective _ _ (same_entry (codes "fips_refs")))

  same_description : s.description ≡ s'.description
  unfolding to_dict get get_field btree_insert text_eq text_lt
  same_description =
      some_string_injective s.description s'.description (same_entry (codes "description"))

  same_active : s.active ≡ s'.active
  unfolding to_dict get get_field btree_insert text_eq text_lt
  same_active = some_bool_injective s.active s'.active (same_entry (codes "active"))

  same_replaces : s.replaces ≡ s'.replaces
  unfolding to_dict get get_field btree_insert text_eq text_lt
  same_replaces =
      optional_text_injective s.replaces s'.replaces
        (some_injective (same_entry (codes "replaces")))

-- No two suites have the same JSON view: every field of a suite can be read off it.
to_dict_injective :
    {N : Type 0} (s s' : CryptoSuite) → ◌≡◌ {A = Value N} (to_dict s) (to_dict s') → s ≡ s'
to_dict_injective s s' e = cc (
  same_id s s' e,
  same_kind s s' e,
  same_status s s' e,
  same_primitives s s' e,
  same_fips_refs s s' e,
  same_description s s' e,
  same_active s s' e,
  same_replaces s s' e,
)

-- The flag of the view is the one that the status in the same view stands for.
to_dict-is_quantum_resistant :
    {N : Type 0} (s : CryptoSuite)
    → (status : Text) × (get (codes "status") (to_dict {N = N} s) ≡ some (string status))
      × (get (codes "quantum_resistant") (to_dict {N = N} s)
          ≡ some (bool (status_is_quantum_resistant (from_wire status))))
unfolding to_dict get get_field btree_insert text_eq text_lt suite_is_quantum_resistant
to_dict-is_quantum_resistant s =
    (status_as_str s.status, refl, rw (from_wire-status_as_str s.status))
