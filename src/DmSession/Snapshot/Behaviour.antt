-- ===== src/DmSession/Snapshot/Behaviour.antt =====
-- A restored session against the session that was stored, over every later run of operations.
use sk_core.Prelude.{ℕ, ◌≡◌, refl, sym, ap, ◌∙◌, List, [], ◌∷◌}
use sk_core.Prelude.Bytes.{Bytes, Text, IsU64}
use sk_core.Prelude.Outcome.{Outcome, ok}
use sk_core.Crypto.{Crates, Laws}
use sk_core.Json.{SerdeJson}
use sk_core.Json.Access.{JsonNumbers, JsonNumbersLaws}
use sk_core.Ratchet.{Float64}
use sk_core.DmSession.{
  DmSession, DmSessionError, Draws, SealedDmFrame, seal, open_frame, session_with_bounds,
}
use sk_core.DmSession.Sending.{WellDrawn}
use sk_core.DmSession.Snapshot.{Hex, HexLaws, snapshot, restore}
use sk_core.DmSession.Snapshot.Stored.{IsFinite, IsStored, session_with_bounds-IsStored}
use sk_core.DmSession.Snapshot.Kept.{seal-IsStored, open_frame-IsStored}
use sk_core.DmSession.Snapshot.RoundTrip.{Same, restore-snapshot}
use sk_core.DmSession.Snapshot.Alike.{seal-Same, open_frame-Same}

-- What the user of a session does with it, and what a session answers.
pub data Operation (F : Type 0) : Type 0 where
  sealing : Draws F → Bytes → Bytes → Operation F
  opening : SealedDmFrame → Bytes → Operation F

pub data Answer : Type 0 where
  sealed : Outcome DmSessionError SealedDmFrame → Answer
  opened : Outcome DmSessionError Bytes → Answer

module _ {F : Type 0} (c : Crates) (fl : Float64 F) where
  perform : DmSession F → Operation F → DmSession F × Answer
  perform s (sealing d plaintext pub_key) =
      let r = seal c fl s d plaintext pub_key in (r.0, sealed r.1)
  perform s (opening f priv) = let r = open_frame c s f priv in (r.0, opened r.1)

  -- The session after the operations, and the answers in their order.
  pub perform_all : DmSession F → List (Operation F) → DmSession F × List Answer
  unfolding perform
  perform_all s [] = (s, [])
  perform_all s (o ∷ os) =
      let r = perform s o in let rest = perform_all r.0 os in (rest.0, r.1 ∷ rest.1)

  perform-Same :
      (s s' : DmSession F) (o : Operation F)
      → Same s s'
      → Same (perform s o).0 (perform s' o).0 × ((perform s o).1 ≡ (perform s' o).1)
  unfolding perform
  perform-Same s s' (sealing d plaintext pub_key) h =
      let k = seal-Same c fl s s' d plaintext pub_key h in (k.0, ap sealed k.1)
  perform-Same s s' (opening f priv) h =
      let k = open_frame-Same c s s' f priv h in (k.0, ap opened k.1)

  -- Sessions that answer alike give the same answers to any operations.
  perform_all-Same :
      (s s' : DmSession F) (os : List (Operation F))
      → Same s s'
      → (perform_all s os).1 ≡ (perform_all s' os).1
  unfolding perform_all
  perform_all-Same s s' [] h = refl
  perform_all-Same s s' (o ∷ os) h =
      let k = perform-Same s s' o h in
      ap (λ x. x ∷ (perform_all (perform s o).0 os).1) k.1
      ∙ ap (λ x. (perform s' o).1 ∷ x) (perform_all-Same (perform s o).0 (perform s' o).0 os k.0)

  module _ {N : Type 0} (numbers : JsonNumbers N F) where
    -- The sizes that the types give: the arrays that are drawn, the epoch of a frame. The clock is finite.
    abbrev IsTyped : Operation F → Type 0
    IsTyped (sealing d plaintext pub_key) = WellDrawn d × IsFinite numbers d.started_at
    IsTyped (opening f priv) = IsU64 f.epoch

    abbrev pub AreTyped : List (Operation F) → Type 0
    AreTyped [] = Unit {0}
    AreTyped (o ∷ os) = IsTyped o × AreTyped os

    perform-IsStored :
        (laws : Laws c) (s : DmSession F) (o : Operation F)
        → IsTyped o
        → IsStored numbers s
        → IsStored numbers (perform s o).0
    unfolding perform
    perform-IsStored laws s (sealing d plaintext pub_key) t v =
        seal-IsStored numbers c fl s d plaintext pub_key t.0 t.1 v
    perform-IsStored laws s (opening f priv) t v = open_frame-IsStored numbers c laws s f priv t v

    -- Any operations, failing ones included, with draws of the right lengths, start times that JSON
    -- can hold and frame epochs that fit a `u64`, keep the invariant that a snapshot rests on: the
    -- bounds fit a `u64`, every epoch has one secret, of 32 bytes, and the outbound ratchet uses the
    -- stored secret of its epoch and the bounds of the session.
    pub perform_all-IsStored :
        (laws : Laws c) (s : DmSession F) (os : List (Operation F))
        → AreTyped os
        → IsStored numbers s
        → IsStored numbers (perform_all s os).0
    unfolding perform_all
    perform_all-IsStored laws s [] t v = v
    perform_all-IsStored laws s (o ∷ os) t v =
        perform_all-IsStored laws (perform s o).0 os t.1 (perform-IsStored laws s o t.0 v)

    -- Let the bounds of a fresh session fit a `u64`, and let it go through any operations, with draws
    -- of the right lengths, start times that JSON can hold and frame epochs that fit a `u64`. Whether
    -- they fail or not, the session is then restored from its snapshot, and the restored session
    -- answers any later operations exactly as the original would: the same frames, plaintexts, errors
    -- and panics, in the same order.
    pub restore-perform_all :
        (laws : Laws c) (json : SerdeJson N) (hex : Hex)
        (number_laws : JsonNumbersLaws json numbers) (hex_laws : HexLaws hex) (peer : Text)
        (bound age : ℕ) (before after : List (Operation F))
        → IsU64 bound
        → IsU64 age
        → AreTyped before
        → (restored : DmSession F) × (restore json numbers hex (
              snapshot json numbers hex (perform_all (session_with_bounds peer bound age) before).0)
            ≡ ok restored)
          × ((perform_all restored after).1
              ≡ (perform_all (perform_all (session_with_bounds peer bound age) before).0 after).1)
    restore-perform_all laws json hex number_laws hex_laws peer bound age before after hb ha t =
        let s = (perform_all (session_with_bounds peer bound age) before).0 in
        let v =
          perform_all-IsStored laws (session_with_bounds peer bound age) before t
            (session_with_bounds-IsStored numbers peer bound age hb ha) in
        let (restored, is, same) = restore-snapshot json numbers hex number_laws hex_laws s v in
        (restored, is, sym (perform_all-Same s restored after same))
