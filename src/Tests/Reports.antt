-- ===== src/Tests/Reports.antt =====
-- The theorems on the self-report at concrete inputs.
use sk_core.Prelude.{◌+◌, ◌≤◌, ◌≡◌, refl, true, ◌&&◌, ◌||◌, [], ◌∷◌, length, ◌==◌, if◌then◌else◌}
use sk_core.Prelude.Bytes.{codes}
use sk_core.Prelude.Texts.{text_eq}
use sk_core.Prelude.Outcome.{ok, panic}
use sk_core.Suites.Global.{is_quantum_resistant}
use sk_core.Report.{
  l3_epoch, dm, SurfaceReport, is_honest_note, or_default, dm_ratchet_surface_for,
  conversation_surface_for, contains_any, contains, starts_with, to_ascii_lowercase, lower_char,
  assert_honest,
}
use sk_core.Report.Surfaces.{Built, surfaces_answer}
use sk_core.Report.Summary.{
  all_claim, classical_claim, symmetric_claim, from_surfaces, report_of, assert_all,
}
use sk_core.Report.Claims.{AllSurfaces, IsHonest, IsCovered, from_surfaces_claim}
use sk_core.Report.Totals.{FromBuilder, report_of_totals}

surfaces_answer_example :
    ((r : SurfaceReport) × Built (or_default (codes "no-such-suite")) r
      × (dm_ratchet_surface_for (codes "no-such-suite") l3_epoch 7 (codes "bob") ≡ (
          if is_honest_note (codes "bob")
            && (is_quantum_resistant (or_default (codes "no-such-suite"))
                || is_honest_note (or_default (codes "no-such-suite")))
          then ok r
          else panic)))
    × ((r : SurfaceReport) × Built (or_default (codes "no-such-suite")) r
        × (conversation_surface_for (codes "no-such-suite") dm (codes "bob")
            ≡ (if is_honest_note (codes "bob") then ok r else panic)))
surfaces_answer_example = surfaces_answer (codes "no-such-suite") l3_epoch 7 dm (codes "bob")

-- A surface put together by hand.
abbrev by_hand : SurfaceReport
by_hand = record {
  surface = codes "at-rest";
  component = codes "store";
  active_suite = codes "aes256-gcm-v1";
  status = codes "symmetric";
  quantum_resistant = true;
  primitives = [];
  fips_refs = [];
  note = codes "sealed at rest";
}

by_hand_made : from_surfaces (by_hand ∷ []) ≡ ok (report_of (by_hand ∷ []))
unfolding from_surfaces assert_all assert_honest is_honest_note contains_any contains starts_with
    to_ascii_lowercase lower_char text_eq
by_hand_made = refl

from_surfaces_claim_example :
    AllSurfaces IsHonest (by_hand ∷ [])
    × (is_honest_note (report_of (by_hand ∷ [])).honest_claim ≡ true)
    × ((report_of (by_hand ∷ [])).honest_claim ≡ all_claim
        → (1 ≤ length (by_hand ∷ [])) × AllSurfaces IsCovered (by_hand ∷ []))
from_surfaces_claim_example =
    from_surfaces_claim (by_hand ∷ []) (report_of (by_hand ∷ [])) by_hand_made

-- The surfaces that the two builders answer.
abbrev dm_surface : SurfaceReport
dm_surface = (surfaces_answer (codes "no-such-suite") l3_epoch 7 dm (codes "bob")).0.0

dm_surface_built : FromBuilder dm_surface
dm_surface_built = (
  or_default (codes "no-such-suite"),
  (surfaces_answer (codes "no-such-suite") l3_epoch 7 dm (codes "bob")).0.1,
)

report_of_totals_example :
    ((report_of (dm_surface ∷ [])).summary.quantum_resistant
        + (report_of (dm_surface ∷ [])).summary.classical
      ≡ (report_of (dm_surface ∷ [])).summary.total_surfaces)
    × ((report_of (dm_surface ∷ [])).summary.symmetric
        ≤ (report_of (dm_surface ∷ [])).summary.quantum_resistant)
    × ((report_of (dm_surface ∷ [])).honest_claim ≡ (
        if (report_of (dm_surface ∷ [])).summary.total_surfaces == 0
        then symmetric_claim
        else if (report_of (dm_surface ∷ [])).summary.classical == 0
        then all_claim
        else classical_claim))
report_of_totals_example = report_of_totals (dm_surface ∷ []) (dm_surface_built, tt)
