-- ===== src/Suites/Listing.antt =====
-- The lists of suites against the registry's entries.
use sk_core.Prelude.{
  ◌≡◌, sym, ◌∙◌, ap, ◌⊎◌, ◌↔◌, inl, inr, Bool, true, false, List, [], ◌∷◌, Bool-cases,
  if◌then◌else◌,
}
use mathlib.Core.Path.{subst}
use sk_core.Prelude.Sorting.{insert_by, sort_by}
use sk_core.Suites.{
  CryptoSuite, Registry, comes_before, values, all_suites, keep_active, active_suites,
}

abbrev pub IsIn : CryptoSuite → List CryptoSuite → Type 0
IsIn s [] = ⊥
IsIn s (t ∷ ts) = (s ≡ t) ⊎ IsIn s ts

IsIn-insert_by :
    (s t : CryptoSuite) (ts : List CryptoSuite)
    → IsIn s (insert_by comes_before t ts) ↔ ((s ≡ t) ⊎ IsIn s ts)
unfolding insert_by
IsIn-insert_by s t [] = (λ h. h, λ h. h)
IsIn-insert_by s t (u ∷ ts) = elim (Bool-cases (comes_before u t)) [
  | inl e ↦ rw e (swap (IsIn-insert_by s t ts))
  | inr e ↦ rw e (λ h. h, λ h. h)
]
  where
    swap :
        (IsIn s (insert_by comes_before t ts) ↔ ((s ≡ t) ⊎ IsIn s ts))
        → ((s ≡ u) ⊎ IsIn s (insert_by comes_before t ts)) ↔ ((s ≡ t) ⊎ ((s ≡ u) ⊎ IsIn s ts))
    swap ih = (
      λ h. elim h [
        | inl a ↦ inr (inl a)
        | inr b ↦ elim (ih.0 b) [ inl a ↦ inl a | inr c ↦ inr (inr c) ]
      ],
      λ h. elim h [
        | inl a ↦ inr (ih.1 (inl a))
        | inr b ↦ elim b [ inl a ↦ inl a | inr c ↦ inr (ih.1 (inr c)) ]
      ],
    )

IsIn-sort_by :
    (s : CryptoSuite) (ss : List CryptoSuite) → IsIn s (sort_by comes_before ss) ↔ IsIn s ss
unfolding sort_by
IsIn-sort_by s [] = (λ h. h, λ h. h)
IsIn-sort_by s (t ∷ ts) =
    let ins = IsIn-insert_by s t (sort_by comes_before ts) in
    let ih = IsIn-sort_by s ts in
    (
      λ h. elim (ins.0 h) [ inl a ↦ inl a | inr b ↦ inr (ih.0 b) ],
      λ h. elim h [ inl a ↦ ins.1 (inl a) | inr b ↦ ins.1 (inr (ih.1 b)) ],
    )

keep_active-cons :
    (t : CryptoSuite) (ts : List CryptoSuite) (b : Bool)
    → t.active ≡ b
    → keep_active (t ∷ ts) ≡ (if b then t ∷ keep_active ts else keep_active ts)
unfolding keep_active
keep_active-cons t ts b e = ap (λ x. if x then t ∷ keep_active ts else keep_active ts) e

IsIn-keep_active :
    (s : CryptoSuite) (ss : List CryptoSuite)
    → IsIn s (keep_active ss) ↔ (IsIn s ss × (s.active ≡ true))
unfolding keep_active
IsIn-keep_active s [] = (λ h. absurd h, λ h. h.0)
IsIn-keep_active s (t ∷ ts) =
    let ih = IsIn-keep_active s ts in
    elim (Bool-cases t.active) [
      | inl e ↦
          subst (λ l. IsIn s l ↔ (IsIn s (t ∷ ts) × (s.active ≡ true)))
            (sym (keep_active-cons t ts true e))
            (
              λ h. elim h [
                | inl a ↦ (inl a, ap (λ (x : CryptoSuite). x.active) a ∙ e)
                | inr b ↦ let (i, j) = ih.0 b in (inr i, j)
              ],
              λ h. elim h.0 [ inl a ↦ inl a | inr b ↦ inr (ih.1 (b, h.1)) ],
            )
      | inr e ↦
          subst (λ l. IsIn s l ↔ (IsIn s (t ∷ ts) × (s.active ≡ true)))
            (sym (keep_active-cons t ts false e))
            (
              λ h. let (i, j) = ih.0 h in (inr i, j),
              λ h. elim h.0 [
                | inl a ↦
                    let clash : true ≡ false = sym h.1 ∙ ap (λ (x : CryptoSuite). x.active) a ∙ e in
                    cc clash
                | inr b ↦ ih.1 (b, h.1)
              ],
            )
    ]

-- `all_suites` lists exactly the suites of the registry's entries, and `active_suites` those of them
-- that are active.
active_suites_iff :
    (r : Registry) (s : CryptoSuite)
    → (IsIn s (all_suites r) ↔ IsIn s (values r.by_id))
      × (IsIn s (active_suites r) ↔ (IsIn s (values r.by_id) × (s.active ≡ true)))
unfolding all_suites active_suites
active_suites_iff r s =
    let listed = IsIn-sort_by s (values r.by_id) in
    let kept = IsIn-keep_active s (sort_by comes_before (values r.by_id)) in
    (listed, (λ h. let (i, j) = kept.0 h in (listed.0 i, j), λ h. kept.1 (listed.1 h.0, h.1)))
