-- ===== src/Suites/Order.antt =====
-- The order of `all_suites` does not depend on the order of the registry's entries.
use sk_core.Prelude.{
  ◌≡◌, refl, sym, ap, ◌∙◌, inl, inr, true, false, not, some, none, List, [], ◌∷◌, Bool-cases,
  if◌then◌else◌, arith, some_injective,
}
use sk_core.Prelude.Bytes.{Text}
use sk_core.Prelude.Texts.{text_eq, text_eq→eq, text_eq_refl, text_eq_iff}
use sk_core.Prelude.Texts.Order.{text_lt_total, text_eq_sym, text_lt_between}
use sk_core.Prelude.Sorting.{insert_by, sort_by, IsApart, insert_by-insert_by}
use sk_core.Suites.{
  CryptoSuite, Registry, status_as_str, comes_before, values, all_suites, find, get_suite, put,
  register, seeded, keep_active, active_suites,
}

comes_before_total :
    (a b : CryptoSuite)
    → text_eq a.suite_id b.suite_id ≡ false
    → comes_before a b ≡ not (comes_before b a)
unfolding comes_before
comes_before_total a b ne = ground (
  arith,
  text_lt_total a.suite_id b.suite_id ne,
  text_lt_total (status_as_str a.status) (status_as_str b.status),
  text_eq_sym (status_as_str a.status) (status_as_str b.status),
)

comes_before_between :
    (a b c : CryptoSuite)
    → comes_before a c ≡ true
    → comes_before a b ≡ false
    → comes_before b c ≡ true
unfolding comes_before
comes_before_between a b c h k = ground (
  arith,
  text_lt_between a.suite_id b.suite_id c.suite_id,
  text_lt_between (status_as_str a.status) (status_as_str b.status) (status_as_str c.status),
  text_eq_iff (status_as_str a.status) (status_as_str b.status),
  text_eq_iff (status_as_str b.status) (status_as_str c.status),
  text_eq_iff (status_as_str a.status) (status_as_str c.status),
  text_lt_total (status_as_str a.status) (status_as_str b.status),
  text_lt_total (status_as_str a.status) (status_as_str c.status),
)

suites-IsApart :
    (a b : CryptoSuite) → text_eq a.suite_id b.suite_id ≡ false → IsApart comes_before a b
suites-IsApart a b ne = inl (comes_before_total a b ne)

-- Every entry stands under the id of its suite, and no id has two entries.
abbrev IsKeyed : List (Text × CryptoSuite) → Type 0
IsKeyed [] = Unit {0}
IsKeyed (entry ∷ rest) = (entry.1.suite_id ≡ entry.0) × (find entry.0 rest ≡ none) × IsKeyed rest

remove : Text → List (Text × CryptoSuite) → List (Text × CryptoSuite)
remove id [] = []
remove id (entry ∷ rest) = if text_eq id entry.0 then rest else entry ∷ remove id rest

find-key :
    (id : Text) (es : List (Text × CryptoSuite)) (v : CryptoSuite)
    → IsKeyed es
    → find id es ≡ some v
    → v.suite_id ≡ id
unfolding find
find-key id [] v h e = cc
find-key id (entry ∷ rest) v h e = elim (Bool-cases (text_eq id entry.0)) [
  | inl k ↦
      ap (λ (x : CryptoSuite). x.suite_id) (sym (some_injective (rw (find, k) at e)))
      ∙ h.0
      ∙ sym (text_eq→eq id entry.0 k)
  | inr k ↦ find-key id rest v h.2 (rw (find, k) at e)
]

find-remove :
    (id other : Text) (es : List (Text × CryptoSuite))
    → IsKeyed es
    → find other (remove id es) ≡ (if text_eq other id then none else find other es)
unfolding find remove
find-remove id other [] h = ground arith
find-remove id other (entry ∷ rest) h = ground (
  arith,
  text_eq_iff id entry.0,
  text_eq_iff other entry.0,
  text_eq_iff other id,
  text_eq_refl entry.0,
  find-remove id other rest h.2,
)

remove-IsKeyed : (id : Text) (es : List (Text × CryptoSuite)) → IsKeyed es → IsKeyed (remove id es)
unfolding find remove
remove-IsKeyed id [] h = tt
remove-IsKeyed id (entry ∷ rest) h =
    ground (arith, find-remove id entry.0 rest h.2, remove-IsKeyed id rest h.2)

sort_suites-remove :
    (id : Text) (es : List (Text × CryptoSuite)) (v : CryptoSuite)
    → IsKeyed es
    → find id es ≡ some v
    → sort_by comes_before (values es)
      ≡ insert_by comes_before v (sort_by comes_before (values (remove id es)))
unfolding find remove sort_by values
sort_suites-remove id [] v h e = cc
sort_suites-remove id (entry ∷ rest) v h e = elim (Bool-cases (text_eq id entry.0)) [
  | inl k ↦ rw k (
      ap (λ x. insert_by comes_before x (sort_by comes_before (values rest)))
        (some_injective (rw (find, k) at e)))
  | inr k ↦
      let found : find id rest ≡ some v = rw (find, k) at e in
      let ne : text_eq entry.1.suite_id v.suite_id ≡ false =
        ap (text_eq entry.1.suite_id) (find-key id rest v h.2 found)
        ∙ ap (λ x. text_eq x id) h.0
        ∙ text_eq_sym entry.0 id
        ∙ k in
      rw k (
        ap (insert_by comes_before entry.1) (sort_suites-remove id rest v h.2 found)
        ∙ insert_by-insert_by comes_before entry.1 v
            (sort_by comes_before (values (remove id rest))) comes_before_between
            (suites-IsApart entry.1 v ne))
]

sort_suites-values :
    (es es' : List (Text × CryptoSuite))
    → IsKeyed es
    → IsKeyed es'
    → ((id : Text) → find id es ≡ find id es')
    → sort_by comes_before (values es) ≡ sort_by comes_before (values es')
unfolding find sort_by values
sort_suites-values [] [] h h' same = refl
sort_suites-values [] (entry ∷ rest) h h' same =
    cc (
      same entry.0 ∙ ap (λ b. if b then some entry.1 else find entry.0 rest) (text_eq_refl entry.0))
sort_suites-values (entry ∷ rest) es' h h' same =
    let found : find entry.0 es' ≡ some entry.1 =
      sym (same entry.0)
      ∙ ap (λ b. if b then some entry.1 else find entry.0 rest) (text_eq_refl entry.0) in
    ap (insert_by comes_before entry.1) (
      sort_suites-values rest (remove entry.0 es') h.2 (remove-IsKeyed entry.0 es' h')
        (others h.1 same))
    ∙ sym (sort_suites-remove entry.0 es' entry.1 h' found)
  where
    others :
        (find entry.0 rest ≡ none)
        → ((id : Text) → find id (entry ∷ rest) ≡ find id es')
        → (id : Text) → find id rest ≡ find id (remove entry.0 es')
    others new same id = elim (Bool-cases (text_eq id entry.0)) [
      | inl k ↦
          ap (λ x. find x rest) (text_eq→eq id entry.0 k)
          ∙ new
          ∙ sym (find-remove entry.0 id es' h' ∙ ap (λ b. if b then none else find id es') k)
      | inr k ↦
          ap (λ b. if b then some entry.1 else find id rest) (sym k)
          ∙ same id
          ∙ sym (find-remove entry.0 id es' h' ∙ ap (λ b. if b then none else find id es') k)
    ]

find-put :
    (id other : Text) (suite : CryptoSuite) (es : List (Text × CryptoSuite))
    → find other (put id suite es) ≡ (if text_eq other id then some suite else find other es)
unfolding find put
find-put id other suite [] = refl
find-put id other suite (entry ∷ rest) = ground (
  arith,
  text_eq_iff id entry.0,
  text_eq_iff other entry.0,
  text_eq_iff other id,
  text_eq_refl entry.0,
  find-put id other suite rest,
)

put-IsKeyed :
    (suite : CryptoSuite) (es : List (Text × CryptoSuite))
    → IsKeyed es
    → IsKeyed (put suite.suite_id suite es)
unfolding find put
put-IsKeyed suite [] h = (refl, refl, tt)
put-IsKeyed suite (entry ∷ rest) h = elim (Bool-cases (text_eq suite.suite_id entry.0)) [
  | inl k ↦ rw k (refl, ap (λ x. find x rest) (text_eq→eq suite.suite_id entry.0 k) ∙ h.1, h.2)
  | inr k ↦ rw k (
    h.0,
    find-put suite.suite_id entry.0 suite rest
        ∙ ap (λ b. if b then some suite else find entry.0 rest)
            (text_eq_sym entry.0 suite.suite_id ∙ k)
        ∙ h.1,
    put-IsKeyed suite rest h.2,
  )
]

-- The registry after some suites have been registered in turn.
unfoldable pub register_all : Registry → List CryptoSuite → Registry
register_all r [] = r
register_all r (s ∷ ss) = register_all (register r s).0 ss

register_all-IsKeyed :
    (r : Registry) (ss : List CryptoSuite) → IsKeyed r.by_id → IsKeyed (register_all r ss).by_id
unfolding register_all register
register_all-IsKeyed r [] h = h
register_all-IsKeyed r (s ∷ ss) h =
    register_all-IsKeyed (register r s).0 ss (put-IsKeyed s r.by_id h)

seeded-IsKeyed : IsKeyed seeded.by_id
unfolding seeded register put find text_eq
seeded-IsKeyed = (refl, refl, (refl, refl, (refl, refl, tt)))

-- Two histories of registrations on top of the seeded registry after which every id gives the same
-- suite list the same suites in the same order: neither the order of the registrations nor what they
-- have overwritten on the way can be seen in `all_suites` and `active_suites`.
pub all_suites-register_all :
    (ss ss' : List CryptoSuite)
    → ((id : Text) → get_suite (register_all seeded ss) id ≡ get_suite (register_all seeded ss') id)
    → (all_suites (register_all seeded ss) ≡ all_suites (register_all seeded ss'))
      × (active_suites (register_all seeded ss) ≡ active_suites (register_all seeded ss'))
unfolding all_suites active_suites get_suite
all_suites-register_all ss ss' same =
    let listed =
      sort_suites-values (register_all seeded ss).by_id (register_all seeded ss').by_id
        (register_all-IsKeyed seeded ss seeded-IsKeyed)
        (register_all-IsKeyed seeded ss' seeded-IsKeyed) same in
    (listed, ap keep_active listed)
