-- ===== src/Report/Summary.antt =====
-- The whole report of src/report.rs: the counts and the claim over its surfaces.
use sk_core.Prelude.{
  ℕ, suc, Bool, false, ◌&&◌, ◌||◌, Option, List, [], ◌∷◌, length, ◌==◌, ltb, if◌then◌else◌,
}
use sk_core.Prelude.Bytes.{Text, codes}
use sk_core.Prelude.Texts.{text_eq}
use sk_core.Prelude.Outcome.{Outcome, ok, expect, ◌>>◌}
use sk_core.Report.{SurfaceReport, assert_honest}

unfoldable pub has_status : Text → SurfaceReport → Bool
has_status status s = text_eq s.status status

-- `surfaces.iter().filter(test).count()`, and `any`.
unfoldable pub count : (SurfaceReport → Bool) → List SurfaceReport → ℕ
count test [] = 0
count test (s ∷ ss) = if test s then suc (count test ss) else count test ss

unfoldable pub any : (SurfaceReport → Bool) → List SurfaceReport → Bool
any test [] = false
any test (s ∷ ss) = test s || any test ss

abbrev pub all_claim : Text
all_claim = codes "All owned surfaces are quantum-resistant."

abbrev pub classical_claim : Text
classical_claim =
    codes
      "NOT quantum-resistant end-to-end. Asymmetric surfaces reported here are CLASSICAL (Shor-breakable) unless a hybrid X25519+ML-KEM-768 (FIPS 203) suite was negotiated. Symmetric/at-rest layers are quantum-acceptable. Do not claim hybrid/post-quantum protection where a surface reads classical."

abbrev pub symmetric_claim : Text
symmetric_claim = codes "Only symmetric surfaces present; no asymmetric PQ migration done."

unfoldable pub honest_claim : List SurfaceReport → Text
unfolding count any has_status
honest_claim surfaces =
    let total = length surfaces in
    let qr = count (λ s. s.quantum_resistant) surfaces in
    let any_classical = any (has_status (codes "classical")) surfaces in
    if ltb 0 total && (qr == total)
    then all_claim
    else if any_classical
    then classical_claim
    else symmetric_claim

pub record Summary : Type 0 where
  pub total_surfaces : ℕ
  pub quantum_resistant : ℕ
  pub classical : ℕ
  pub symmetric : ℕ

pub record Report : Type 0 where
  pub report : Text
  pub surfaces : List SurfaceReport
  pub summary : Summary
  pub honest_claim : Text

-- The loop of `from_surfaces`.
unfoldable pub assert_all : List SurfaceReport → Outcome ⊥ (Unit {0})
unfolding assert_honest
assert_all [] = ok tt
assert_all (s ∷ ss) = assert_honest s >> assert_all ss

unfoldable pub report_of : List SurfaceReport → Report
unfolding honest_claim count has_status
report_of surfaces = record {
  report = codes "pqc-self-report";
  surfaces = surfaces;
  summary = record {
    total_surfaces = length surfaces;
    quantum_resistant = count (λ s. s.quantum_resistant) surfaces;
    classical = count (has_status (codes "classical")) surfaces;
    symmetric = count (has_status (codes "symmetric")) surfaces;
  };
  honest_claim = honest_claim surfaces;
}

unfoldable pub from_surfaces : List SurfaceReport → Outcome ⊥ Report
unfolding assert_all report_of
from_surfaces surfaces = assert_all surfaces >> ok (report_of surfaces)

-- `to_json`, over `serde_json::to_string_pretty` on the derived form of a report.
unfoldable pub to_json : (Report → Option Text) → Report → Outcome ⊥ Text
to_json to_string_pretty report = expect (to_string_pretty report)
