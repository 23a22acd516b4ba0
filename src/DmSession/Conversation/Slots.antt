-- ===== src/DmSession/Conversation/Slots.antt =====
-- Every slot of a conversation is used once, over all epochs and restarts.
use sk_core.Prelude.{◌≡◌, sym, ap, ◌∙◌, inl, inr, some, List, ◌∷◌}
use mathlib.Core.Path.{subst, subst₂}
use sk_core.Prelude.Bytes.{Bytes, IsU64}
use sk_core.Prelude.Outcome.{Outcome}
use sk_core.Crypto.{Crates, Laws}
use sk_core.Json.{SerdeJson}
use sk_core.Json.Access.{JsonNumbers, JsonNumbersLaws}
use sk_core.Ratchet.{DmRatchet, Float64}
use sk_core.DmSession.{DmSession, DmSessionError, SealedDmFrame, open_frame}
use sk_core.DmSession.Flow.{Arrives, Flow}
use sk_core.DmSession.Flow.Steps.{open_arrived}
use sk_core.DmSession.Flow.Slots.{Behind, DistinctSlots, seal-TakesSlot, TakesSlot-new, Behind-same}
use sk_core.DmSession.Snapshot.{Hex, HexLaws}
use sk_core.DmSession.Snapshot.Stored.{IsStored}
use sk_core.DmSession.Conversation.{
  Party, AreU64, World, Seeds, swap, start, Acts, seals, opens, restarts, Step, alice_acts,
  bob_acts, Reach, here, next, Direction, alice_to_bob, bob_to_alice, sent,
}
use sk_core.DmSession.Conversation.Invariant.{Inv, Inv-swap, restarted, start-Inv, Reach-Inv}

-- Either session stands behind the slots of the frames that it has sent, which are all different.
record Ordered {F : Type 0} (w : World F) : Type 0 where
  alice_behind : Behind w.alice w.from_alice
  alice_distinct : DistinctSlots w.from_alice
  bob_behind : Behind w.bob w.from_bob
  bob_distinct : DistinctSlots w.from_bob

Ordered-swap : {F : Type 0} {w : World F} → Ordered w → Ordered (swap w)
Ordered-swap o = record {
  alice_behind = o.bob_behind;
  alice_distinct = o.bob_distinct;
  bob_behind = o.alice_behind;
  bob_distinct = o.alice_distinct;
}

-- Opening a frame leaves the ratchet alone.
open_frame-current :
    (c : Crates) (priv : Bytes) {F : Type 0} (s r : DmSession F)
    (log : List (SealedDmFrame × Bytes)) (f : SealedDmFrame)
    → Flow c priv s r log
    → Arrives c priv log f
    → r.current ≡ (open_frame c r f priv).0.current
open_frame-current c priv s r log f v arrives = elim (open_arrived c priv s r log f v arrives) [
  | inl same ↦ ap DmSession.current (sym same)
  | inr (_, _, _, _, is) ↦ ap DmSession.current (sym is)
]

module _ (c : Crates) (laws : Laws c) {N F : Type 0} (fl : Float64 F) (json : SerdeJson N)
    (numbers : JsonNumbers N F) (hex : Hex) (number_laws : JsonNumbersLaws json numbers)
    (hex_laws : HexLaws hex) where
  bound-IsU64 :
      (s : DmSession F) (r : DmRatchet F)
      → IsStored numbers s
      → s.current ≡ some r
      → IsU64 r.rekey_msg_bound
  bound-IsU64 s r v e = subst IsU64 (sym (v.outbound r e).same_bound) v.bound_u64

  Acts-Ordered :
      {mine theirs : Seeds} {w w' : World F}
      → Acts c fl json numbers hex mine theirs w w'
      → Inv c laws fl json numbers hex number_laws hex_laws mine theirs w
      → Ordered w
      → Ordered w'
  Acts-Ordered {theirs = theirs} (seals w d pt s f drawn finite fits last e) v o =
      let t =
        seal-TakesSlot c laws theirs.x_seed theirs.mlkem_seed theirs.x_seed_32 fl w.alice d pt drawn
          fits v.to_bob.ready last (λ r now. bound-IsU64 w.alice r v.alice_stored now) in
      let session_is : t.session ≡ s = cc (t.is) in
      let frame_is : t.frame ≡ f = cc (t.is) in
      let (behind, distinct) =
        TakesSlot-new w.alice w.from_alice _ pt t o.alice_behind o.alice_distinct in
      subst₂
        (λ (a : DmSession F) (g : SealedDmFrame).
          Ordered (record w { alice = a; from_alice = (g, pt) ∷ w.from_alice }))
        session_is frame_is
        (record {
          alice_behind = behind;
          alice_distinct = distinct;
          bob_behind = o.bob_behind;
          bob_distinct = o.bob_distinct;
        })
  Acts-Ordered (opens w f s _ _ arrives e) v o = record {
    alice_behind =
        Behind-same w.alice s w.from_alice
          (open_frame-current c _ w.bob w.alice w.from_bob f v.to_alice arrives
            ∙ ap (λ (q : DmSession F × Outcome DmSessionError Bytes). q.0.current) e)
          o.alice_behind;
    alice_distinct = o.alice_distinct;
    bob_behind = o.bob_behind;
    bob_distinct = o.bob_distinct;
  }
  Acts-Ordered (restarts w s e) v o = record {
    alice_behind =
        Behind-same w.alice s w.from_alice
          (restarted c laws fl json numbers hex number_laws hex_laws w.alice s v.alice_stored
            e).same_current
          o.alice_behind;
    alice_distinct = o.alice_distinct;
    bob_behind = o.bob_behind;
    bob_distinct = o.bob_distinct;
  }

  Step-Ordered :
      {a b : Seeds} {w w' : World F}
      → Step c fl json numbers hex a b w w'
      → Inv c laws fl json numbers hex number_laws hex_laws a b w
      → Ordered w
      → Ordered w'
  Step-Ordered (alice_acts w w' act) v o = Acts-Ordered act v o
  Step-Ordered (bob_acts w w' act) v o = Ordered-swap (
      Acts-Ordered act (Inv-swap c laws fl json numbers hex number_laws hex_laws v)
        (Ordered-swap o))

  Reach-Ordered :
      {a b : Seeds} {u w : World F}
      → Reach c fl json numbers hex a b u w
      → Inv c laws fl json numbers hex number_laws hex_laws a b u
      → Ordered u
      → Ordered w
  Reach-Ordered here v o = o
  Reach-Ordered (next r st) v o =
      Step-Ordered st (Reach-Inv c laws fl json numbers hex number_laws hex_laws r v).0
        (Reach-Ordered r v o)

  start-Ordered : (alice bob : Party) → Ordered (start {F = F} alice bob)
  start-Ordered alice bob = record {
    alice_behind = record { past = λ f pt was. absurd was };
    alice_distinct = tt;
    bob_behind = record { past = λ f pt was. absurd was };
    bob_distinct = tt;
  }

  -- In a conversation of two fresh sessions whose bounds fit a `u64`, which seal to keys made from seeds of
  -- 32 bytes, with draws of the right lengths, start times that JSON can hold and plaintexts that AES-GCM
  -- takes, while their epochs fit a `u64`, which are restored from their snapshots at any time, and which
  -- open what arrives, be it a sent frame or one of any `u64` epoch without a KAM, with one that does not
  -- unwrap or with that of a sent frame of the epoch: no two frames that a session has sent have the same epoch and index.
  pub slots_never_repeat :
      (of_alice of_bob : Seeds) (dir : Direction) (alice bob : Party) (w : World F)
      → AreU64 alice
      → AreU64 bob
      → Reach c fl json numbers hex of_alice of_bob (start alice bob) w
      → DistinctSlots (sent dir w)
  slots_never_repeat of_alice of_bob dir alice bob w ha hb reach =
      let o =
        Reach-Ordered reach
          (start-Inv c laws fl json numbers hex number_laws hex_laws of_alice of_bob alice bob ha
            hb)
          (start-Ordered alice bob) in
      of_direction dir o
    where
      of_direction : (dir : Direction) → Ordered w → DistinctSlots (sent dir w)
      of_direction alice_to_bob o = o.alice_distinct
      of_direction bob_to_alice o = o.bob_distinct
