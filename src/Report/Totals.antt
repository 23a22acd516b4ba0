-- ===== src/Report/Totals.antt =====
-- The counts of a report whose surfaces come from the builders.
use sk_core.Prelude.{
  ◌+◌, ◌≤◌, ◌≡◌, refl, sym, ap, ◌∙◌, Bool, true, not, List, [], ◌∷◌, length, ◌==◌, ltb,
  if◌then◌else◌, arith,
}
use sk_core.Prelude.Bytes.{Text, codes}
use sk_core.Prelude.Texts.{text_eq}
use sk_core.Suites.{
  SuiteStatus, classical, hybrid_pq, pq, symmetric, status_as_str, seeded, suite_status,
  status_is_quantum_resistant,
}
use sk_core.Suites.Registered.{is_quantum_resistant-suite_status}
use sk_core.Report.{SurfaceReport}
use sk_core.Report.Surfaces.{Built, classical_only}
use sk_core.Report.Summary.{
  has_status, count, any, all_claim, classical_claim, symmetric_claim, honest_claim, report_of,
}
use sk_core.Report.Claims.{AllSurfaces}

-- A surface that a builder has answered for some suite.
abbrev pub FromBuilder : SurfaceReport → Type 0
FromBuilder s = (suite_id : Text) × Built suite_id s

symmetric_only :
    (status : SuiteStatus)
    → text_eq (status_as_str status) (codes "symmetric") ≡ true
    → status_is_quantum_resistant status ≡ true
unfolding status_as_str text_eq status_is_quantum_resistant
symmetric_only classical e = cc
symmetric_only hybrid_pq e = refl
symmetric_only pq e = refl
symmetric_only symmetric e = refl

classical-resistant :
    (s : SurfaceReport) → FromBuilder s → has_status (codes "classical") s ≡ not s.quantum_resistant
unfolding has_status
classical-resistant s (id, b) =
    ap (λ x. text_eq x (codes "classical")) b.status_is
    ∙ classical_only (suite_status seeded id)
    ∙ ap not (sym (b.resistant_is ∙ is_quantum_resistant-suite_status seeded id))

symmetric-resistant :
    (s : SurfaceReport)
    → FromBuilder s
    → has_status (codes "symmetric") s ≡ true
    → s.quantum_resistant ≡ true
unfolding has_status
symmetric-resistant s (id, b) e =
    b.resistant_is
    ∙ is_quantum_resistant-suite_status seeded id
    ∙ symmetric_only (suite_status seeded id)
        (ap (λ x. text_eq x (codes "symmetric")) (sym b.status_is) ∙ e)

resistant-classical :
    (ss : List SurfaceReport)
    → AllSurfaces FromBuilder ss
    → count (λ s. s.quantum_resistant) ss + count (has_status (codes "classical")) ss ≡ length ss
unfolding count
resistant-classical [] h = refl
resistant-classical (s ∷ ss) h =
    ground (arith, classical-resistant s h.0, resistant-classical ss h.1)

symmetric-le :
    (ss : List SurfaceReport)
    → AllSurfaces FromBuilder ss
    → count (has_status (codes "symmetric")) ss ≤ count (λ s. s.quantum_resistant) ss
unfolding count
symmetric-le [] h = omega arith
symmetric-le (s ∷ ss) h = ground (arith, symmetric-resistant s h.0, symmetric-le ss h.1)

any-count :
    (test : SurfaceReport → Bool) (ss : List SurfaceReport) → any test ss ≡ ltb 0 (count test ss)
unfolding any count
any-count test [] = ground arith
any-count test (s ∷ ss) = ground (arith, any-count test ss)

-- In a report on surfaces that the builders have answered, every surface is counted either as
-- quantum-resistant or as classical, and the symmetric ones among the resistant. The claim is that all
-- are resistant if none is classical, and that the whole is not if one is; the claim on symmetric
-- surfaces is made for the empty report alone.
pub report_of_totals :
    (ss : List SurfaceReport)
    → AllSurfaces FromBuilder ss
    → ((report_of ss).summary.quantum_resistant + (report_of ss).summary.classical
        ≡ (report_of ss).summary.total_surfaces)
      × ((report_of ss).summary.symmetric ≤ (report_of ss).summary.quantum_resistant)
      × ((report_of ss).honest_claim ≡ (
          if (report_of ss).summary.total_surfaces == 0
          then symmetric_claim
          else if (report_of ss).summary.classical == 0
          then all_claim
          else classical_claim))
unfolding report_of honest_claim
report_of_totals ss h = (
  resistant-classical ss h,
  symmetric-le ss h,
  ground (arith, resistant-classical ss h, any-count (has_status (codes "classical")) ss),
)
