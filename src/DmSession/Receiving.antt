-- ===== src/DmSession/Receiving.antt =====
-- The receiving half: which frames `open` opens, what it stores, and when it fails or panics.
use sk_core.Prelude.{
  ℕ, ◌^◌, ◌≤◌, ◌≡◌, ◌≢◌, ap, ◌∙◌, ◌⊎◌, inl, inr, none, some, length, Option-cases,
}
use mathlib.Core.Path.{subst}
use sk_core.Prelude.Bytes.{Bytes}
use sk_core.Prelude.Maps.{lookup, insert, lookup-insert_self}
use sk_core.Prelude.Outcome.{Outcome, ok, err, panic, ◌>>=◌, map_err}
use sk_core.Crypto.{Crates, Laws}
use sk_core.Crypto.Calls.{decrypt, decrypt_panics}
use sk_core.Ratchet.{RatchetError, derive_dm_message_key, unwrap_dm_epoch_secret}
use sk_core.Ratchet.Schedule.{derive_dm_message_key_total}
use sk_core.DmSession.{
  DmSession, DmSessionError, SealedDmFrame, accept_kam, frame_aad, missing_epoch_secret, open_body,
  open_failed, open_frame, ratchet,
}
use sk_core.DmSession.Frame.{FrameOf, KamOf}
use sk_core.DmSession.Token.{Base64, Base64Laws, to_token, from_token}
use sk_core.DmSession.Token.RoundTrip.{IsWire, from_token-to_token}

opened :
    (c : Crates) (priv secret plaintext : Bytes) (f : SealedDmFrame)
    → FrameOf c priv secret plaintext f
    → (map_err ratchet (derive_dm_message_key c secret f.epoch f.index) >>= λ key.
        decrypt c open_failed key f.nonce (frame_aad f.epoch f.index) f.body)
      ≡ ok plaintext
opened c priv secret plaintext f of = rw (of.derived, of.opens)

module _ (c : Crates) (priv : Bytes) {F : Type 0} where
  accept_known :
      (s : DmSession F) (f : SealedDmFrame) (secret : Bytes)
      → lookup f.epoch s.epoch_secrets ≡ some secret
      → accept_kam c s f priv ≡ (s, ok tt)
  unfolding accept_kam
  accept_known s f secret known = elim (Option-cases f.kam) [
    | inl e ↦ rw (e, accept_kam)
    | inr (k, e) ↦ rw (e, accept_kam, known)
  ]

  open_body_known :
      (s : DmSession F) (f : SealedDmFrame) (secret : Bytes)
      → lookup f.epoch s.epoch_secrets ≡ some secret
      → open_body c s f ≡ (
          map_err ratchet (derive_dm_message_key c secret f.epoch f.index) >>= λ key.
          decrypt c open_failed key f.nonce (frame_aad f.epoch f.index) f.body)
  unfolding open_body
  open_body_known s f secret known = rw known

  -- A frame of a stored epoch is opened with the stored secret; its KAM is not looked at.
  pub open_known :
      (s : DmSession F) (f : SealedDmFrame) (secret : Bytes)
      → lookup f.epoch s.epoch_secrets ≡ some secret
      → open_frame c s f priv ≡ (
        s,
        map_err ratchet (derive_dm_message_key c secret f.epoch f.index) >>= λ key.
            decrypt c open_failed key f.nonce (frame_aad f.epoch f.index) f.body,
      )
  unfolding open_frame
  open_known s f secret known =
      rw (accept_known s f secret known) (ap (λ r. (s, r)) (open_body_known s f secret known))

  -- A frame of an unknown epoch without a KAM is refused, and changes nothing.
  pub open_unknown :
      (s : DmSession F) (f : SealedDmFrame)
      → lookup f.epoch s.epoch_secrets ≡ none
      → f.kam ≡ none
      → open_frame c s f priv ≡ (s, err (missing_epoch_secret f.epoch))
  unfolding open_frame accept_kam open_body
  open_unknown s f unknown bare = rw (bare, accept_kam, unknown)

  -- So is one whose KAM does not unwrap.
  pub open_refused :
      (s : DmSession F) (f : SealedDmFrame) (wrapped : Bytes) (e : RatchetError)
      → lookup f.epoch s.epoch_secrets ≡ none
      → f.kam ≡ some wrapped
      → unwrap_dm_epoch_secret c wrapped priv ≡ err e
      → open_frame c s f priv ≡ (s, err (ratchet e))
  unfolding open_frame accept_kam
  open_refused s f wrapped e unknown is u = rw (is, accept_kam, unknown, u)

  -- A KAM for an unknown epoch is unwrapped and stored, and the frame is opened with its secret.
  pub open_fresh :
      (s : DmSession F) (f : SealedDmFrame) (wrapped secret : Bytes)
      → lookup f.epoch s.epoch_secrets ≡ none
      → f.kam ≡ some wrapped
      → unwrap_dm_epoch_secret c wrapped priv ≡ ok secret
      → open_frame c s f priv ≡ (
        record s { epoch_secrets = insert f.epoch secret s.epoch_secrets },
        map_err ratchet (derive_dm_message_key c secret f.epoch f.index) >>= λ key.
            decrypt c open_failed key f.nonce (frame_aad f.epoch f.index) f.body,
      )
  unfolding open_frame accept_kam open_body
  open_fresh s f wrapped secret unknown e u =
      rw (e, accept_kam, unknown, u, lookup-insert_self f.epoch secret s.epoch_secrets)

  -- The answer to a frame that carries a plaintext: the plaintext where the secret is stored or comes
  -- with the frame, and `MissingEpochSecret` otherwise.
  pub data Delivered (s : DmSession F) (f : SealedDmFrame) (secret plaintext : Bytes)
      : DmSession F × Outcome DmSessionError Bytes → Type 0 where
    known :
        lookup f.epoch s.epoch_secrets ≡ some secret
        → Delivered s f secret plaintext (s, ok plaintext)
    fresh :
        lookup f.epoch s.epoch_secrets ≡ none
        → (k : Bytes) × (f.kam ≡ some k)
        → Delivered s f secret plaintext
            (record s { epoch_secrets = insert f.epoch secret s.epoch_secrets }, ok plaintext)
    missing :
        lookup f.epoch s.epoch_secrets ≡ none
        → f.kam ≡ none
        → Delivered s f secret plaintext (s, err (missing_epoch_secret f.epoch))

  pub open_Delivered :
      (s : DmSession F) (f : SealedDmFrame) (secret plaintext : Bytes)
      → FrameOf c priv secret plaintext f
      → (lookup f.epoch s.epoch_secrets ≡ none) ⊎ (lookup f.epoch s.epoch_secrets ≡ some secret)
      → Delivered s f secret plaintext (open_frame c s f priv)
  open_Delivered s f secret plaintext of (inr stored) =
      rw (open_known s f secret stored, opened c priv secret plaintext f of) (known stored)
  open_Delivered s f secret plaintext of (inl unknown) = elim (Option-cases f.kam) [
    | inl bare ↦ rw (open_unknown s f unknown bare) (missing unknown bare)
    | inr (k, e) ↦
        rw
          (
            open_fresh s f k secret unknown e (subst (KamOf c priv secret) e of.kam_of),
            opened c priv secret plaintext f of,
          )
          (fresh unknown (k, e))
  ]

  -- Let a frame fit its token, name an epoch whose secret of 32 bytes is stored, and have a nonce
  -- of another length than 12, and let `usize` have at least 2^34 values, as on 64-bit targets. Its token
  -- parses to it, and `open` panics on it.
  pub open_panics :
      (laws : Laws c) (usize : ℕ) (b64 : Base64) (b64_laws : Base64Laws b64) (s : DmSession F)
      (f : SealedDmFrame) (secret : Bytes)
      → 2 ^ 34 ≤ usize
      → IsWire f
      → length f.nonce ≢ 12
      → lookup f.epoch s.epoch_secrets ≡ some secret
      → length secret ≡ 32
      → (from_token b64 usize (to_token b64 f) ≡ ok f) × (open_frame c s f priv ≡ (s, panic))
  open_panics laws usize b64 b64_laws s f secret wide wire odd stored l =
      let (key, e, _) = derive_dm_message_key_total c laws.hkdf secret f.epoch f.index l in
      (
        from_token-to_token usize b64 wide b64_laws f wire,
        open_known s f secret stored
            ∙ rw (
              e,
              decrypt_panics c {E = DmSessionError} laws.aead open_failed key f.nonce
                  (frame_aad f.epoch f.index) f.body odd,
            ),
      )
