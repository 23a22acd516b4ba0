-- ===== src/Report/Surfaces.antt =====
-- The surface builders of src/report.rs: what they answer for every suite id and every peer.
use sk_core.Prelude.{
  ℕ, ◌≡◌, refl, ap, ◌∙◌, inl, inr, not, ◌||◌, ◌&&◌, if◌then◌else◌, Option-cases, arith,
}
use sk_core.Prelude.Bytes.{Text, codes}
use sk_core.Prelude.Texts.{text_eq}
use sk_core.Prelude.Outcome.{ok, panic}
use sk_core.Suites.{
  SuiteStatus, classical, hybrid_pq, pq, symmetric, status_as_str, suite_is_quantum_resistant,
  status_is_quantum_resistant,
}
use sk_core.Suites
use sk_core.Suites.Global.{get_suite, suite_status, is_quantum_resistant}
use sk_core.Report.{
  RatchetLevel, Resolved, SurfaceReport, ConversationKind, is_honest_note, assert_honest,
  resolve_suite, surface_of, surface_from, or_default, dm_note, dm_ratchet_surface_for,
  surface_name, conversation_note, conversation_surface_for,
}
use sk_core.Report.Notes.{dm_note-IsHonest, conversation_note-kind}

-- What is resolved is what the registry says.
record ByRegistry (suite_id : Text) (r : Resolved) : Type 0 where
  status_is : r.status ≡ suite_status suite_id
  resistant_is : r.quantum_resistant ≡ is_quantum_resistant suite_id
  together : r.quantum_resistant ≡ status_is_quantum_resistant r.status

resolve_suite-ByRegistry : (suite_id : Text) → ByRegistry suite_id (resolve_suite suite_id)
unfolding resolve_suite Suites.suite_status Suites.is_quantum_resistant suite_is_quantum_resistant
    status_is_quantum_resistant
resolve_suite-ByRegistry suite_id = elim (Option-cases (get_suite suite_id)) [
  | inl e ↦
      rw (resolve_suite, e)
        (record {
          status_is = rw (Suites.suite_status, e);
          resistant_is = rw (Suites.is_quantum_resistant, e);
          together = refl;
        })
  | inr (s, e) ↦
      rw (resolve_suite, e)
        (record {
          status_is = rw (Suites.suite_status, e);
          resistant_is = rw (Suites.is_quantum_resistant, e);
          together = refl;
        })
]

pub classical_only :
    (status : SuiteStatus)
    → text_eq (status_as_str status) (codes "classical") ≡ not (status_is_quantum_resistant status)
unfolding status_as_str text_eq status_is_quantum_resistant
classical_only classical = refl
classical_only hybrid_pq = refl
classical_only pq = refl
classical_only symmetric = refl

-- Only the note decides whether the assertion holds.
surface_from-note :
    (surface component suite_id note : Text)
    → surface_from surface component suite_id note
      ≡ (if is_honest_note note then ok (surface_of surface component suite_id note) else panic)
unfolding surface_from assert_honest surface_of
surface_from-note surface component suite_id note = ground (
  arith,
  classical_only (resolve_suite suite_id).status,
  (resolve_suite-ByRegistry suite_id).together,
)

-- A surface that says of a suite what the registry says of it.
pub record Built (suite_id : Text) (r : SurfaceReport) : Type 0 where
  pub suite_is : r.active_suite ≡ suite_id
  pub status_is : r.status ≡ status_as_str (suite_status suite_id)
  pub resistant_is : r.quantum_resistant ≡ is_quantum_resistant suite_id

surface_of-Built :
    (surface component suite_id note : Text)
    → Built suite_id (surface_of surface component suite_id note)
unfolding surface_of
surface_of-Built surface component suite_id note =
    let h = resolve_suite-ByRegistry suite_id in
    record {
      suite_is = refl;
      status_is = ap status_as_str h.status_is;
      resistant_is = h.resistant_is;
    }

dm_ratchet_surface_for_answer :
    (suite : Text) (level : RatchetLevel) (epoch : ℕ) (peer : Text)
    → (r : SurfaceReport) × Built (or_default suite) r
      × (dm_ratchet_surface_for suite level epoch peer ≡ (
          if is_honest_note peer
            && (is_quantum_resistant (or_default suite) || is_honest_note (or_default suite))
          then ok r
          else panic))
unfolding dm_ratchet_surface_for
dm_ratchet_surface_for_answer suite level epoch peer =
    let id = or_default suite in
    let note = dm_note id (resolve_suite id).quantum_resistant level epoch peer in
    let r = surface_of (codes "dm") (codes "skchat (DmRatchet)") id note in
    (
      r,
      surface_of-Built (codes "dm") (codes "skchat (DmRatchet)") id note,
      surface_from-note (codes "dm") (codes "skchat (DmRatchet)") id note
          ∙ ap (λ b. if b then ok r else panic)
              (dm_note-IsHonest id (resolve_suite id).quantum_resistant level epoch peer
                ∙ ap (λ q. is_honest_note peer && (q || is_honest_note id))
                    (resolve_suite-ByRegistry id).resistant_is),
    )

conversation_surface_for_answer :
    (suite : Text) (kind : ConversationKind) (peer : Text)
    → (r : SurfaceReport) × Built (or_default suite) r
      × (conversation_surface_for suite kind peer ≡ (if is_honest_note peer then ok r else panic))
unfolding conversation_surface_for
conversation_surface_for_answer suite kind peer =
    let id = or_default suite in
    let (surface, component) = surface_name kind in
    let note = conversation_note surface (resolve_suite id).quantum_resistant peer in
    let r = surface_of surface component id note in
    (
      r,
      surface_of-Built surface component id note,
      surface_from-note surface component id note
          ∙ ap (λ b. if b then ok r else panic)
              (conversation_note-kind kind (resolve_suite id).quantum_resistant peer),
    )

-- What the two builders answer, for every suite id and every peer. They panic exactly if the peer's
-- name contains a forbidden word, or, for the ratchet surface of a suite that is not
-- quantum-resistant, the suite id does. Otherwise the surface has the status and the flag that the
-- registry gives the suite, so that an unknown suite is classical and not resistant.
pub surfaces_answer :
    (suite : Text) (level : RatchetLevel) (epoch : ℕ) (kind : ConversationKind) (peer : Text)
    → ((r : SurfaceReport) × Built (or_default suite) r
        × (dm_ratchet_surface_for suite level epoch peer ≡ (
            if is_honest_note peer
              && (is_quantum_resistant (or_default suite) || is_honest_note (or_default suite))
            then ok r
            else panic)))
      × ((r : SurfaceReport) × Built (or_default suite) r
          × (conversation_surface_for suite kind peer
              ≡ (if is_honest_note peer then ok r else panic)))
surfaces_answer suite level epoch kind peer = (
  dm_ratchet_surface_for_answer suite level epoch peer,
  conversation_surface_for_answer suite kind peer,
)
