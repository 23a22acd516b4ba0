-- ===== src/DmSession/Conversation/Invariant.antt =====
-- What both directions of a conversation keep, whoever acts.
use sk_core.Prelude.{◌≡◌, ◌∙◌, sym, ◌∷◌}
use mathlib.Core.Path.{subst, subst₂}
use sk_core.Prelude.Bytes.{Bytes}
use sk_core.Prelude.Maps.{lookup-nil}
use sk_core.Prelude.Outcome.{Outcome, ok}
use sk_core.Crypto.{Crates, Laws}
use sk_core.Json.{SerdeJson}
use sk_core.Json.Access.{JsonNumbers, JsonNumbersLaws}
use sk_core.Ratchet.{Float64}
use sk_core.DmSession.{DmSession, DmSessionError, SealedDmFrame, session_with_bounds}
use sk_core.DmSession.Sending.Sealing.{seal_ok}
use sk_core.DmSession.Flow.{Flow, Keeps, Keeps-refl, Keeps-trans}
use sk_core.DmSession.Flow.Moves.{Same-Keeps}
use sk_core.DmSession.Flow.Steps.{
  Flow-seals, Flow-sealing, Flow-opens, Flow-opening, Flow-sender_restarts, Flow-receiver_restarts,
  Sent-Keeps, open-Keeps,
}
use sk_core.DmSession.Snapshot.{Hex, HexLaws, restore, snapshot}
use sk_core.DmSession.Snapshot.Stored.{IsStored, session_with_bounds-IsStored}
use sk_core.DmSession.Snapshot.Kept.{seal-IsStored, open_frame-IsStored}
use sk_core.DmSession.Snapshot.RoundTrip.{Same, restore-snapshot}
use sk_core.DmSession.Snapshot.Sound.{restore-IsStored}
use sk_core.DmSession.Conversation.{
  Party, AreU64, World, Seeds, swap, start, keypair, Acts, seals, opens, restarts, Step, alice_acts,
  bob_acts, Reach, here, next,
}

module _ (c : Crates) (laws : Laws c) {N F : Type 0} (fl : Float64 F) (json : SerdeJson N)
    (numbers : JsonNumbers N F) (hex : Hex) (number_laws : JsonNumbersLaws json numbers)
    (hex_laws : HexLaws hex) where
  -- Both sessions can be stored, and the frames flow both ways.
  pub record Inv (of_alice of_bob : Seeds) (w : World F) : Type 0 where
    pub alice_stored : IsStored numbers w.alice
    pub bob_stored : IsStored numbers w.bob
    pub to_bob : Flow c (keypair c of_bob).private_key w.alice w.bob w.from_alice
    pub to_alice : Flow c (keypair c of_alice).private_key w.bob w.alice w.from_bob

  pub Inv-swap : {a b : Seeds} {w : World F} → Inv a b w → Inv b a (swap w)
  Inv-swap v = record {
    alice_stored = v.bob_stored;
    bob_stored = v.alice_stored;
    to_bob = v.to_alice;
    to_alice = v.to_bob;
  }

  -- A session that is restored from its snapshot answers as before.
  pub restarted :
      (s s' : DmSession F)
      → IsStored numbers s
      → restore json numbers hex (snapshot json numbers hex s) ≡ ok s'
      → Same s s'
  restarted s s' v e =
      let (t, is, same) = restore-snapshot json numbers hex number_laws hex_laws s v in
      let one : t ≡ s' = cc (sym is ∙ e) in subst (Same s) one same

  Acts-Inv :
      {mine theirs : Seeds} {w w' : World F}
      → Acts c fl json numbers hex mine theirs w w'
      → Inv mine theirs w
      → Inv mine theirs w' × Keeps w.alice w'.alice
  Acts-Inv {mine} {theirs} (seals w d pt s f drawn finite fits last e) v =
      let t =
        seal_ok c laws theirs.x_seed theirs.mlkem_seed theirs.x_seed_32 fl w.alice d pt drawn fits
          v.to_bob.ready in
      let session_is : t.session ≡ s = cc (t.is) in
      let frame_is : t.frame ≡ f = cc (t.is) in
      let stored : IsStored numbers t.session =
        subst (λ (q : DmSession F × Outcome DmSessionError SealedDmFrame). IsStored numbers q.0)
          t.is
          (seal-IsStored numbers c fl w.alice d pt (keypair c theirs).public_key drawn finite
            v.alice_stored) in
      subst₂
        (λ (a : DmSession F) (g : SealedDmFrame).
          Inv mine theirs (record w { alice = a; from_alice = (g, pt) ∷ w.from_alice })
          × Keeps w.alice a)
        session_is frame_is
        (
          record {
            alice_stored = stored;
            bob_stored = v.bob_stored;
            to_bob =
                Flow-seals c laws theirs.x_seed theirs.mlkem_seed theirs.x_seed_32 fl w.alice pt
                  last t w.bob w.from_alice v.to_bob;
            to_alice =
                Flow-sealing c laws theirs.x_seed theirs.mlkem_seed theirs.x_seed_32 fl w.alice pt
                  last t _ w.bob w.from_bob v.to_alice;
          },
          Sent-Keeps c laws theirs.x_seed theirs.mlkem_seed theirs.x_seed_32 fl w.alice pt last t,
        )
  Acts-Inv {mine} {theirs} (opens w f s o sized arrives e) v =
      subst
        (λ (q : DmSession F × Outcome DmSessionError Bytes).
          Inv mine theirs (record w { alice = q.0 }) × Keeps w.alice q.0)
        e
        (
          record {
            alice_stored =
                open_frame-IsStored numbers c laws w.alice f (keypair c mine).private_key sized
                  v.alice_stored;
            bob_stored = v.bob_stored;
            to_bob =
                Flow-opening c _ _ w.bob w.alice w.bob w.from_bob w.from_alice f arrives v.to_alice
                  v.to_bob;
            to_alice = Flow-opens c _ w.bob w.alice w.from_bob f arrives v.to_alice;
          },
          open-Keeps c _ w.bob w.alice w.from_bob f arrives v.to_alice,
        )
  Acts-Inv (restarts w s e) v =
      let same = restarted w.alice s v.alice_stored e in
      (
        record {
          alice_stored = restore-IsStored json numbers hex number_laws _ s e;
          bob_stored = v.bob_stored;
          to_bob = Flow-sender_restarts c _ w.alice s w.bob w.from_alice same v.to_bob;
          to_alice = Flow-receiver_restarts c _ w.bob w.alice s w.from_bob same v.to_alice;
        },
        Same-Keeps w.alice s same,
      )

  -- Whatever one session does, the other stays as it is.
  Acts-Keeps :
      {mine theirs : Seeds} {w w' : World F}
      → Acts c fl json numbers hex mine theirs w w'
      → Keeps w.bob w'.bob
  Acts-Keeps (seals w d pt s f drawn finite fits last e) = Keeps-refl w.bob
  Acts-Keeps (opens w f s o sized arrives e) = Keeps-refl w.bob
  Acts-Keeps (restarts w s e) = Keeps-refl w.bob

  -- A step keeps the invariant, and what either session has begun.
  Step-Inv :
      {a b : Seeds} {w w' : World F}
      → Step c fl json numbers hex a b w w'
      → Inv a b w
      → Inv a b w' × Keeps w.alice w'.alice × Keeps w.bob w'.bob
  Step-Inv (alice_acts w w' act) v = let (v', keep) = Acts-Inv act v in (v', keep, Acts-Keeps act)
  Step-Inv (bob_acts w w' act) v =
      let (v', keep) = Acts-Inv act (Inv-swap v) in (Inv-swap v', Acts-Keeps act, keep)

  pub Reach-Inv :
      {a b : Seeds} {u w : World F}
      → Reach c fl json numbers hex a b u w
      → Inv a b u
      → Inv a b w × Keeps u.alice w.alice × Keeps u.bob w.bob
  Reach-Inv {u} here v = (v, Keeps-refl u.alice, Keeps-refl u.bob)
  Reach-Inv (next r st) v =
      let (v₁, ka, kb) = Reach-Inv r v in
      let (v₂, ka', kb') = Step-Inv st v₁ in (v₂, Keeps-trans ka ka', Keeps-trans kb kb')

  pub start-Inv :
      (a b : Seeds) (alice bob : Party) → AreU64 alice → AreU64 bob → Inv a b (start alice bob)
  unfolding session_with_bounds
  start-Inv a b alice bob ha hb = record {
    alice_stored =
        session_with_bounds-IsStored numbers bob.name alice.rekey_msg_bound alice.rekey_age_seconds
          ha.0 ha.1;
    bob_stored =
        session_with_bounds-IsStored numbers alice.name bob.rekey_msg_bound bob.rekey_age_seconds
          hb.0 hb.1;
    to_bob = record {
      ready = tt;
      logged = λ f pt h. absurd h;
      agrees = λ epoch secret e. cc (lookup-nil {V = Bytes} epoch);
    };
    to_alice = record {
      ready = tt;
      logged = λ f pt h. absurd h;
      agrees = λ epoch secret e. cc (lookup-nil {V = Bytes} epoch);
    };
  }
