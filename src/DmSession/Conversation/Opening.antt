-- ===== src/DmSession/Conversation/Opening.antt =====
-- Which frames of a conversation open, and which never will.
use sk_core.Prelude.{◌≤◌, ◌≡◌, ◌⊎◌, inl, inr, some, none}
use sk_core.Prelude.Bytes.{Bytes}
use sk_core.Prelude.Maps.{lookup}
use sk_core.Prelude.Maps.Distinct.{AllEntries-lookup}
use sk_core.Prelude.Outcome.{ok, err}
use sk_core.Crypto.{Crates, Laws}
use sk_core.Json.{SerdeJson}
use sk_core.Json.Access.{JsonNumbers, JsonNumbersLaws}
use sk_core.Ratchet.{Float64}
use sk_core.DmSession.{DmSession, SealedDmFrame, missing_epoch_secret, open_failed, open_frame}
use sk_core.DmSession.Flow.{Flow, Owns, WasSent, Keeps}
use sk_core.DmSession.Flow.Frames.{Flow-OpensOrMisses, Flow-opens_known, Flow-Shut, Shut}
use sk_core.DmSession.Snapshot.{Hex, HexLaws}
use sk_core.DmSession.Snapshot.Secrets.{IsSecret}
use sk_core.DmSession.Snapshot.Stored.{IsStored}
use sk_core.DmSession.Conversation.{
  Party, AreU64, World, Seeds, start, keypair, Reach, Direction, alice_to_bob, bob_to_alice,
  receiver, sent, receiver_seeds,
}
use sk_core.DmSession.Conversation.Invariant.{Inv, start-Inv, Reach-Inv}

module _ (c : Crates) (laws : Laws c) {N F : Type 0} (fl : Float64 F) (json : SerdeJson N)
    (numbers : JsonNumbers N F) (hex : Hex) (number_laws : JsonNumbersLaws json numbers)
    (hex_laws : HexLaws hex) (of_alice of_bob : Seeds) where
  abbrev private_key_of : Direction → Bytes
  private_key_of dir = (keypair c (receiver_seeds dir of_alice of_bob)).private_key

  -- The direction of the invariant, with its sender.
  flow :
      (dir : Direction) (w : World F)
      → Inv c laws fl json numbers hex number_laws hex_laws of_alice of_bob w
      → (s : DmSession F) × Flow c (private_key_of dir) s (receiver dir w) (sent dir w)
  flow alice_to_bob w v = (w.alice, v.to_bob)
  flow bob_to_alice w v = (w.bob, v.to_alice)

  receiver-IsStored :
      (dir : Direction) (w : World F)
      → Inv c laws fl json numbers hex number_laws hex_laws of_alice of_bob w
      → IsStored numbers (receiver dir w)
  receiver-IsStored alice_to_bob w v = v.bob_stored
  receiver-IsStored bob_to_alice w v = v.alice_stored

  receiver-Keeps :
      (dir : Direction) (u w : World F)
      → Keeps u.alice w.alice
      → Keeps u.bob w.bob
      → Keeps (receiver dir u) (receiver dir w)
  receiver-Keeps alice_to_bob u w ka kb = kb
  receiver-Keeps bob_to_alice u w ka kb = ka

  -- Two fresh sessions, whose bounds fit a `u64`, seal to each other's public keys, made from seeds of 32
  -- bytes, with draws of the right lengths, start times that JSON can hold and plaintexts that AES-GCM
  -- takes, while their epochs fit a `u64`. They are restored from their snapshots at any time, and they open
  -- what arrives: frames that were sent, lost, repeated and reordered, and frames of any `u64` epoch with
  -- any index, nonce and body that have no KAM, one that does not unwrap, or that of a sent frame of the
  -- epoch. After any such steps, a frame that was sent in either direction opens to the plaintext that was sealed in it; or its epoch is not
  -- stored, its index is 3 or more, and `open` answers `MissingEpochSecret` and changes nothing; or the
  -- receiver has itself begun the frame's epoch, and `open` leaves its session as it is.
  pub conversation_opens :
      (dir : Direction) (alice bob : Party) (w : World F) (f : SealedDmFrame) (pt : Bytes)
      → AreU64 alice
      → AreU64 bob
      → Reach c fl json numbers hex of_alice of_bob (start alice bob) w
      → WasSent f pt (sent dir w)
      → let result = open_frame c (receiver dir w) f (private_key_of dir) in
        ((result.1 ≡ ok pt)
          ⊎ ((lookup f.epoch (receiver dir w).epoch_secrets ≡ none)
              × (3 ≤ f.index)
              × (result ≡ (receiver dir w, err (missing_epoch_secret f.epoch)))))
        ⊎ (Owns (receiver dir w) f.epoch × (result.0 ≡ receiver dir w))
  conversation_opens dir alice bob w f pt ha hb reach was =
      let (v, _, _) = Reach-Inv c laws fl json numbers hex number_laws hex_laws reach (
        start-Inv c laws fl json numbers hex number_laws hex_laws of_alice of_bob alice bob ha
          hb) in
      let (s, direction) = flow dir w v in
      Flow-OpensOrMisses c (private_key_of dir) s (receiver dir w) (sent dir w) f pt direction was

  -- In such a conversation, let a session have a secret for an epoch. However the conversation goes on,
  -- every frame of that epoch that the other has sent it, before or since, opens to its plaintext, until
  -- the session begins an epoch of that number itself.
  pub known_epoch_opens :
      (dir : Direction) (alice bob : Party) (u w : World F) (f : SealedDmFrame) (pt secret : Bytes)
      → AreU64 alice
      → AreU64 bob
      → Reach c fl json numbers hex of_alice of_bob (start alice bob) u
      → lookup f.epoch (receiver dir u).epoch_secrets ≡ some secret
      → Reach c fl json numbers hex of_alice of_bob u w
      → WasSent f pt (sent dir w)
      → ((open_frame c (receiver dir w) f (private_key_of dir)).1 ≡ ok pt)
        ⊎ Owns (receiver dir w) f.epoch
  known_epoch_opens dir alice bob u w f pt secret ha hb before at after was =
      let (v, _, _) = Reach-Inv c laws fl json numbers hex number_laws hex_laws before (
        start-Inv c laws fl json numbers hex number_laws hex_laws of_alice of_bob alice bob ha
          hb) in
      let (v', ka, kb) = Reach-Inv c laws fl json numbers hex number_laws hex_laws after v in
      let (s, direction) = flow dir w v' in
      elim ((receiver-Keeps dir u w ka kb).known f.epoch secret at) [
        | inr own ↦ inr own
        | inl kept ↦
            Flow-opens_known c (private_key_of dir) s (receiver dir w) (sent dir w) f pt secret
              direction was kept
      ]

  -- In such a conversation, let a session have begun an epoch with a secret of its own. However the
  -- conversation goes on, that session never opens a frame of the other's epoch of the same number, the
  -- KAM in the frame notwithstanding: if the own secret's key for the slot does not open the body, then
  -- `open` answers `OpenFailed` and changes nothing.
  pub own_epoch_shuts :
      (dir : Direction) (alice bob : Party) (u w : World F) (f : SealedDmFrame) (pt own : Bytes)
      → AreU64 alice
      → AreU64 bob
      → Reach c fl json numbers hex of_alice of_bob (start alice bob) u
      → Owns (receiver dir u) f.epoch
      → lookup f.epoch (receiver dir u).epoch_secrets ≡ some own
      → Reach c fl json numbers hex of_alice of_bob u w
      → WasSent f pt (sent dir w)
      → Shut c own f
      → open_frame c (receiver dir w) f (private_key_of dir) ≡ (receiver dir w, err open_failed)
  own_epoch_shuts dir alice bob u w f pt own ha hb before begun at after was shut =
      let (v, _, _) = Reach-Inv c laws fl json numbers hex number_laws hex_laws before (
        start-Inv c laws fl json numbers hex number_laws hex_laws of_alice of_bob alice bob ha
          hb) in
      let (v', ka, kb) = Reach-Inv c laws fl json numbers hex number_laws hex_laws after v in
      let kept = (receiver-Keeps dir u w ka kb).stored f.epoch own begun at in
      let (s, direction) = flow dir w v' in
      let sized : IsSecret f.epoch own =
        AllEntries-lookup IsSecret f.epoch own (receiver dir w).epoch_secrets
          (receiver-IsStored dir w v').secrets kept in
      Flow-Shut c (private_key_of dir) laws s (receiver dir w) (sent dir w) f pt own direction was
        kept sized.1 shut
