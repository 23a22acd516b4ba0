-- ===== src/DmSession/Forged.antt =====
-- src/dm_session.rs: what `open` does with a KAM that the peer has not made.
use sk_core.Prelude.{◌≡◌, ap, ◌∙◌, some, none, length}
use mathlib.Core.Path.{subst}
use sk_core.Prelude.Bytes.{Bytes}
use sk_core.Prelude.Maps.{lookup, lookup-insert_self}
use sk_core.Prelude.Outcome.{ok, err}
use sk_core.Crypto.{Crates, Laws}
use sk_core.Kem.{hybrid_keypair}
use sk_core.Ratchet.{wrap_dm_epoch_secret, unwrap_dm_epoch_secret}
use sk_core.Ratchet.Wrapping.{unwrap-wrap_dm_epoch_secret}
use sk_core.DmSession.{DmSession, SealedDmFrame, open_failed, open_frame}
use sk_core.DmSession.Receiving.{open_fresh}
use sk_core.DmSession.Flow.Moves.{learning}
use sk_core.DmSession.Flow.Frames.{Shut, known-Shut}

module _ (c : Crates) (laws : Laws c) (x_seed mlkem_seed : Bytes) (seed_32 : length x_seed ≡ 32)
    {F : Type 0} where
  -- Let a session not know an epoch, and open a frame of it whose KAM wraps any secret of 32 bytes, with a
  -- nonce of 12 bytes, to the session's public key, made from a seed of 32 bytes; the frame's body need
  -- not open. Then `open` answers `OpenFailed`, and changes nothing, to every frame of that epoch with a
  -- nonce of 12 bytes that the wrapped secret's key does not open, whatever KAM the frame carries.
  pub forged_kam_shuts :
      (s : DmSession F) (x_eph mlkem_rand wrap_nonce secret k : Bytes) (g f : SealedDmFrame)
      → length wrap_nonce ≡ 12
      → length secret ≡ 32
      → lookup g.epoch s.epoch_secrets ≡ none
      → g.kam ≡ some k
      → wrap_dm_epoch_secret c x_eph mlkem_rand wrap_nonce secret
          (hybrid_keypair c x_seed mlkem_seed).public_key
        ≡ ok k
      → f.epoch ≡ g.epoch
      → length f.nonce ≡ 12
      → Shut c secret f
      → let priv = (hybrid_keypair c x_seed mlkem_seed).private_key in
        let s' = (open_frame c s g priv).0 in open_frame c s' f priv ≡ (s', err open_failed)
  forged_kam_shuts s x_eph mlkem_rand wrap_nonce secret k g f hn hs unknown kam wrapped of_epoch n
        shut =
      let priv = (hybrid_keypair c x_seed mlkem_seed).private_key in
      let (payload, is, unwraps, _) =
        unwrap-wrap_dm_epoch_secret c laws x_seed mlkem_seed x_eph mlkem_rand wrap_nonce secret
          seed_32 hn hs in
      let same : payload ≡ k = cc (is, wrapped) in
      let unwrapped : unwrap_dm_epoch_secret c k priv ≡ ok secret =
        subst (λ p. unwrap_dm_epoch_secret c p priv ≡ ok secret) same unwraps in
      let learns : (open_frame c s g priv).0 ≡ learning s g.epoch secret =
        ap (λ q. q.0) (open_fresh c priv s g k secret unknown kam unwrapped) in
      rw learns (
        known-Shut c priv laws (learning s g.epoch secret) f secret n
          (ap (λ e. lookup e (learning s g.epoch secret).epoch_secrets) of_epoch
            ∙ lookup-insert_self g.epoch secret s.epoch_secrets)
          hs shut)
