-- ===== src/Report/Claims.antt =====
-- What the top-level claim of a report means for its surfaces.
use sk_core.Prelude.{
  ◌≤◌, ◌≡◌, ◌≢◌, refl, sym, ap, ◌∙◌, Bool, true, false, ◌&&◌, List, [], ◌∷◌, length, ◌==◌, ltb,
  if◌then◌else◌, arith,
}
use sk_core.Prelude.Bytes.{Text, codes}
use sk_core.Prelude.Texts.{text_eq, text_eq_refl}
use sk_core.Prelude.Outcome.{ok, >>=-elim, ok_injective}
use sk_core.Report.{
  SurfaceReport, assert_honest, is_honest_note, contains_any, contains, starts_with,
  to_ascii_lowercase, lower_char,
}
use sk_core.Report.Summary.{
  has_status, count, any, all_claim, classical_claim, symmetric_claim, honest_claim, Report,
  assert_all, report_of, from_surfaces,
}

-- What the assertion checks of a surface.
pub record IsHonest (s : SurfaceReport) : Type 0 where
  pub note_honest : is_honest_note s.note ≡ true
  pub classical_exposed : has_status (codes "classical") s ≡ true → s.quantum_resistant ≡ false

abbrev pub AllSurfaces : (SurfaceReport → Type 0) → List SurfaceReport → Type 0
AllSurfaces P [] = Unit {0}
AllSurfaces P (s ∷ ss) = P s × AllSurfaces P ss

assert_honest-IsHonest : (s : SurfaceReport) {u : Unit {0}} → assert_honest s ≡ ok u → IsHonest s
unfolding assert_honest has_status
assert_honest-IsHonest s h = record {
  note_honest = ground arith;
  classical_exposed = λ c. ground arith;
}

assert_all-IsHonest :
    (ss : List SurfaceReport) {u : Unit {0}} → assert_all ss ≡ ok u → AllSurfaces IsHonest ss
unfolding assert_all
assert_all-IsHonest [] h = tt
assert_all-IsHonest (s ∷ ss) h =
    >>=-elim (assert_honest s) _ h
      λ _ first rest. (assert_honest-IsHonest s first, assert_all-IsHonest ss rest)

count_le : (test : SurfaceReport → Bool) (ss : List SurfaceReport) → count test ss ≤ length ss
unfolding count
count_le test [] = omega arith
count_le test (s ∷ ss) = ground (arith, count_le test ss)

count_all :
    (test : SurfaceReport → Bool) (ss : List SurfaceReport)
    → count test ss ≡ length ss
    → AllSurfaces (λ s. test s ≡ true) ss
unfolding count
count_all test [] h = tt
count_all test (s ∷ ss) h = ground (arith, count_le test ss, count_all test ss)

-- The three claims are different texts, and none has a forbidden word.
claims_differ : (classical_claim ≢ all_claim) × (symmetric_claim ≢ all_claim)
unfolding text_eq
claims_differ = (
  λ e.
      let clash : true ≡ false =
        sym (text_eq_refl classical_claim) ∙ ap (text_eq classical_claim) e in
      cc clash,
  λ e.
      let clash : true ≡ false =
        sym (text_eq_refl symmetric_claim) ∙ ap (text_eq symmetric_claim) e in
      cc clash,
)

claim_of : Bool → Bool → Text
claim_of all any_classical =
    if all then all_claim else if any_classical then classical_claim else symmetric_claim

claim_of-IsHonest : (b c : Bool) → is_honest_note (claim_of b c) ≡ true
unfolding claim_of is_honest_note contains_any contains starts_with to_ascii_lowercase lower_char
claim_of-IsHonest true c = refl
claim_of-IsHonest false true = refl
claim_of-IsHonest false false = refl

claim_of-all : (b c : Bool) → claim_of b c ≡ all_claim → b ≡ true
unfolding claim_of
claim_of-all true c e = refl
claim_of-all false true e = absurd (claims_differ.0 e)
claim_of-all false false e = absurd (claims_differ.1 e)

honest_claim-claim_of :
    (ss : List SurfaceReport)
    → honest_claim ss
      ≡ claim_of
          (ltb 0 (length ss) && (count (λ s. s.quantum_resistant) ss == length ss))
          (any (has_status (codes "classical")) ss)
unfolding honest_claim claim_of
honest_claim-claim_of ss = refl

-- A resistant surface that is honest.
pub record IsCovered (s : SurfaceReport) : Type 0 where
  pub resistant : s.quantum_resistant ≡ true
  pub exposed : has_status (codes "classical") s ≡ false

AllSurfaces-IsCovered :
    (ss : List SurfaceReport)
    → AllSurfaces IsHonest ss
    → AllSurfaces (λ s. s.quantum_resistant ≡ true) ss
    → AllSurfaces IsCovered ss
AllSurfaces-IsCovered [] h k = tt
AllSurfaces-IsCovered (s ∷ ss) h k = (
  record { resistant = k.0; exposed = ground (arith, h.0.classical_exposed, k.0) },
  AllSurfaces-IsCovered ss h.1 k.1,
)

-- Whatever surfaces a report is made of, those put together by hand included: every note of a
-- report that is made and its claim are free of forbidden words, no classical surface is marked
-- resistant, and if the claim is that all surfaces are quantum-resistant, then there is a surface,
-- all are marked resistant, and none is classical.
pub from_surfaces_claim :
    (ss : List SurfaceReport) (r : Report)
    → from_surfaces ss ≡ ok r
    → AllSurfaces IsHonest ss
      × (is_honest_note r.honest_claim ≡ true)
      × (r.honest_claim ≡ all_claim → (1 ≤ length ss) × AllSurfaces IsCovered ss)
unfolding from_surfaces report_of
from_surfaces_claim ss r h = >>=-elim (assert_all ss) _ h λ _ asserted made.
    let honest = assert_all-IsHonest ss asserted in
    let all = ltb 0 (length ss) && (count (λ s. s.quantum_resistant) ss == length ss) in
    let claim : r.honest_claim ≡ claim_of all (any (has_status (codes "classical")) ss) =
      sym (ap (λ (x : Report). x.honest_claim) (ok_injective made)) ∙ honest_claim-claim_of ss in
    (
      honest,
      ap is_honest_note claim ∙ claim_of-IsHonest all (any (has_status (codes "classical")) ss),
      λ is_all.
          let k = claim_of-all all (any (has_status (codes "classical")) ss) (sym claim ∙ is_all) in
          (
            ground (arith, k),
            AllSurfaces-IsCovered ss honest
                (count_all (λ s. s.quantum_resistant) ss (ground (arith, k))),
          ),
    )
