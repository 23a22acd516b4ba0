-- ===== src/DmSession/Delivery.antt =====
-- A sender and a receiver over a channel that loses, repeats, reorders and alters frames at will.
use sk_core.Prelude.{ℕ, ◌≤◌, ◌≡◌, refl, ◌⊎◌, inl, inr, none, List, [], ◌∷◌, length}
use mathlib.Core.Path.{subst, subst₂}
use sk_core.Prelude.Bytes.{Bytes, Text}
use sk_core.Prelude.Maps.{lookup, lookup-nil}
use sk_core.Prelude.Outcome.{Outcome, ok, err}
use sk_core.Crypto.{Crates, Laws, Fits}
use sk_core.Kem.{hybrid_keypair}
use sk_core.Ratchet.{Float64}
use sk_core.DmSession.{
  DmSession, DmSessionError, Draws, SealedDmFrame, missing_epoch_secret, open_frame, seal,
  session_with_bounds,
}
use sk_core.DmSession.Sending.{WellDrawn}
use sk_core.DmSession.Sending.Sealing.{seal_ok}
use sk_core.DmSession.Flow.{Arrives, Flow, HasNext, WasSent}
use sk_core.DmSession.Flow.Steps.{Flow-seals, Flow-opens, open_arrived}
use sk_core.DmSession.Flow.Frames.{Flow-OpensOrMisses}

pub record World (F : Type 0) : Type 0 where
  pub sender : DmSession F
  pub receiver : DmSession F
  pub sent : List (SealedDmFrame × Bytes)

-- Two sessions that have exchanged nothing.
abbrev pub start : {F : Type 0} → Text → Text → ℕ → ℕ → World F
start alice bob bound age = record {
  sender = session_with_bounds bob bound age;
  receiver = session_with_bounds alice bound age;
  sent = [];
}

module _ (c : Crates) (x_seed mlkem_seed : Bytes) {F : Type 0} (fl : Float64 F) where
  -- The sender seals a message to the receiver's public key, or the channel hands over any frame that
  -- was ever sent, or what it has made of one.
  pub data Step : World F → World F → Type 0 where
    sends :
        (w : World F) (d : Draws F) (pt : Bytes) (s : DmSession F) (f : SealedDmFrame)
        → WellDrawn d
        → Fits pt
        → HasNext w.sender
        → seal c fl w.sender d pt (hybrid_keypair c x_seed mlkem_seed).public_key ≡ (s, ok f)
        → Step w (record w { sender = s; sent = (f, pt) ∷ w.sent })
    hands_over :
        (w : World F) (f : SealedDmFrame) (r : DmSession F) (o : Outcome DmSessionError Bytes)
        → Arrives c (hybrid_keypair c x_seed mlkem_seed).private_key w.sent f
        → open_frame c w.receiver f (hybrid_keypair c x_seed mlkem_seed).private_key ≡ (r, o)
        → Step w (record w { receiver = r })

  pub data Reach (w : World F) : World F → Type 0 where
    here : Reach w w
    next : {u v : World F} → Reach w u → Step u v → Reach w v

  -- The frames flow from the sender to the receiver, who has begun no epoch.
  pub record Inv (w : World F) : Type 0 where
    pub flow : Flow c (hybrid_keypair c x_seed mlkem_seed).private_key w.sender w.receiver w.sent
    pub listens : w.receiver.current ≡ none

  start-Inv : (alice bob : Text) (bound age : ℕ) → Inv (start alice bob bound age)
  unfolding session_with_bounds
  start-Inv alice bob bound age = record {
    flow = record {
      ready = tt;
      logged = λ f pt h. absurd h;
      agrees = λ epoch secret e. cc (lookup-nil {V = Bytes} epoch);
    };
    listens = refl;
  }

  hands_over-Inv :
      (w : World F) (f : SealedDmFrame)
      → Inv w
      → Arrives c (hybrid_keypair c x_seed mlkem_seed).private_key w.sent f
      → Inv (record w {
        receiver = (open_frame c w.receiver f (hybrid_keypair c x_seed mlkem_seed).private_key).0;
      })
  hands_over-Inv w f v arrives = record {
    flow = Flow-opens c _ w.sender w.receiver w.sent f arrives v.flow;
    listens = elim (open_arrived c _ w.sender w.receiver w.sent f v.flow arrives) [
      | inl same ↦ rw same v.listens
      | inr (_, _, _, _, is) ↦ rw is v.listens
    ];
  }

  module _ (laws : Laws c) (seed_32 : length x_seed ≡ 32) where
    Step-Inv : {w w' : World F} → Step w w' → Inv w → Inv w'
    Step-Inv (sends w d pt s f drawn fits last e) v =
        let t = seal_ok c laws x_seed mlkem_seed seed_32 fl w.sender d pt drawn fits v.flow.ready in
        let session_is : t.session ≡ s = cc (t.is) in
        let frame_is : t.frame ≡ f = cc (t.is) in
        subst₂
          (λ (a : DmSession F) (g : SealedDmFrame).
            Inv (record w { sender = a; sent = (g, pt) ∷ w.sent }))
          session_is frame_is
          (record {
            flow =
                Flow-seals c laws x_seed mlkem_seed seed_32 fl w.sender pt last t w.receiver w.sent
                  v.flow;
            listens = v.listens;
          })
    Step-Inv (hands_over w f r o arrives e) v =
        subst
          (λ (q : DmSession F × Outcome DmSessionError Bytes). Inv (record w { receiver = q.0 })) e
          (hands_over-Inv w f v arrives)

    Reach-Inv : {u w : World F} → Reach u w → Inv u → Inv w
    Reach-Inv here v = v
    Reach-Inv (next r st) v = Step-Inv st (Reach-Inv r v)

    -- From two fresh sessions on, let a sender seal any plaintexts that AES-GCM takes, with draws
    -- of the right lengths and while its epochs fit a `u64`, to a key made from a seed of 32 bytes.
    -- The channel loses, repeats and reorders frames, and gives frames any index, nonce and body, without
    -- a KAM, with one that does not unwrap, or with that of a sent frame of the epoch. Afterwards a frame
    -- that was sent opens to the plaintext that was sealed in it; or else the receiver has not stored its epoch, its index is
    -- 3 or more, and `open` answers `MissingEpochSecret` and changes nothing.
    pub sent_frames_open :
        (alice bob : Text) (bound age : ℕ) (w : World F) (f : SealedDmFrame) (pt : Bytes)
        → Reach (start alice bob bound age) w
        → WasSent f pt w.sent
        → let result = open_frame c w.receiver f (hybrid_keypair c x_seed mlkem_seed).private_key in
          (result.1 ≡ ok pt)
          ⊎ ((lookup f.epoch w.receiver.epoch_secrets ≡ none)
              × (3 ≤ f.index)
              × (result ≡ (w.receiver, err (missing_epoch_secret f.epoch))))
    sent_frames_open alice bob bound age w f pt reach was =
        let v = Reach-Inv reach (start-Inv alice bob bound age) in
        elim (Flow-OpensOrMisses c _ w.sender w.receiver w.sent f pt v.flow was) [
          | inl opens ↦ opens
          | inr ((_, now, _), _) ↦ absurd (cc (v.listens))
        ]
