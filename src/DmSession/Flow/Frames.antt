-- ===== src/DmSession/Flow/Frames.antt =====
-- What `open` answers to a frame of the log.
use sk_core.Prelude.{
  ◌≤◌, ◌<◌, ◌≡◌, refl, sym, ap, ◌∙◌, ◌⊎◌, inl, inr, none, some, List, length, arith, Option-cases,
}
use native.Mathlib.Decide.{dec_le, ℕ_discrete}
use sk_core.Prelude.Bytes.{Bytes}
use sk_core.Prelude.Maps.{lookup}
use sk_core.Prelude.Outcome.{Outcome, ok, err}
use sk_core.Crypto.{Crates, Laws}
use sk_core.Crypto.Calls.{decrypt-eq_err, decrypt_panics}
use sk_core.Ratchet.{derive_dm_message_key}
use sk_core.Ratchet.Schedule.{derive_dm_message_key_total}
use sk_core.DmSession.{
  DmSession, DmSessionError, SealedDmFrame, frame_aad, missing_epoch_secret, open_failed,
  open_frame,
}
use sk_core.DmSession.Frame.{FrameOf}
use sk_core.DmSession.Receiving.{Delivered, known, fresh, missing, open_Delivered, open_known}
use sk_core.DmSession.Flow.{Owns, Flow, WasSent}

module _ (c : Crates) where
  -- A frame that carries a plaintext has a nonce of 12 bytes.
  pub nonce_12 :
      (priv : Bytes) (laws : Laws c) (f : SealedDmFrame) (secret pt : Bytes)
      → FrameOf c priv secret pt f
      → length f.nonce ≡ 12
  nonce_12 priv laws f secret pt of = elim (ℕ_discrete (length f.nonce) 12) [
    | yes h ↦ h
    | no odd ↦ absurd (
        cc (
          sym of.opens
          ∙ decrypt_panics c {E = DmSessionError} laws.aead open_failed of.key f.nonce
              (frame_aad f.epoch f.index) f.body odd))
  ]

  -- The key that a secret gives the frame's slot does not open the frame.
  abbrev pub Shut : Bytes → SealedDmFrame → Type 0
  Shut secret f =
      (key : Bytes)
      → derive_dm_message_key c secret f.epoch f.index ≡ ok key
      → c.aes_gcm_decrypt key f.nonce (frame_aad f.epoch f.index) f.body ≡ none

module _ (c : Crates) (priv : Bytes) {F : Type 0} where
  -- The frame opens to its plaintext; or its epoch is unknown, it comes after the KAMs, and `open` answers
  -- `MissingEpochSecret` and changes nothing.
  abbrev OpensOrMisses : DmSession F → SealedDmFrame → Bytes → Type 0
  OpensOrMisses r f pt =
      ((open_frame c r f priv).1 ≡ ok pt)
      ⊎ ((lookup f.epoch r.epoch_secrets ≡ none)
          × (3 ≤ f.index)
          × (open_frame c r f priv ≡ (r, err (missing_epoch_secret f.epoch))))

  delivered :
      (s : DmSession F) (f : SealedDmFrame) (secret pt : Bytes)
      (result : DmSession F × Outcome DmSessionError Bytes)
      → (f.index < 3 → (k : Bytes) × (f.kam ≡ some k))
      → Delivered c priv s f secret pt result
      → (result.1 ≡ ok pt)
        ⊎ ((lookup f.epoch s.epoch_secrets ≡ none)
            × (3 ≤ f.index)
            × (result ≡ (s, err (missing_epoch_secret f.epoch))))
  delivered s f secret pt result early (known _) = inl refl
  delivered s f secret pt result early (fresh _ _) = inl refl
  delivered s f secret pt result early (missing unknown bare) = inr (unknown, late, refl)
    where
      late : 3 ≤ f.index
      late = elim (dec_le 3 f.index) [
        | yes h ↦ h
        | no h ↦ let (k, e) = early (omega arith) in absurd (cc (sym bare ∙ e))
      ]

  -- Whatever the log holds opens, unless the receiver has begun the epoch itself.
  pub Flow-OpensOrMisses :
      (s r : DmSession F) (log : List (SealedDmFrame × Bytes)) (f : SealedDmFrame) (pt : Bytes)
      → Flow c priv s r log
      → WasSent f pt log
      → OpensOrMisses r f pt ⊎ (Owns r f.epoch × ((open_frame c r f priv).0 ≡ r))
  Flow-OpensOrMisses s r log f pt v was =
      let l = v.logged f pt was in
      let opens =
        λ (h : (lookup f.epoch r.epoch_secrets ≡ none)
            ⊎ (lookup f.epoch r.epoch_secrets ≡ some l.secret)).
          delivered r f l.secret pt _ l.kam_early
            (open_Delivered c priv r f l.secret pt l.carries h) in
      elim (Option-cases (lookup f.epoch r.epoch_secrets)) [
        | inl unknown ↦ inl (opens (inl unknown))
        | inr (x, at) ↦ elim (v.agrees f.epoch x at) [
          | inl own ↦ inr (own, ap (λ q. q.0) (open_known c priv r f x at))
          | inr (_, theirs) ↦ inl (opens (inr (at ∙ sym theirs ∙ l.stored)))
        ]
      ]

  -- It opens if a secret of its epoch is stored that the receiver has not drawn itself.
  pub Flow-opens_known :
      (s r : DmSession F) (log : List (SealedDmFrame × Bytes)) (f : SealedDmFrame)
      (pt secret : Bytes)
      → Flow c priv s r log
      → WasSent f pt log
      → lookup f.epoch r.epoch_secrets ≡ some secret
      → ((open_frame c r f priv).1 ≡ ok pt) ⊎ Owns r f.epoch
  Flow-opens_known s r log f pt secret v was at = elim (Flow-OpensOrMisses s r log f pt v was) [
    | inr (own, _) ↦ inr own
    | inl (inl opens) ↦ inl opens
    | inl (inr (unknown, _, _)) ↦ absurd (cc (sym unknown ∙ at))
  ]

  -- A frame fails to open, and changes nothing, where the stored secret of its epoch does not open it.
  pub known-Shut :
      (laws : Laws c) (r : DmSession F) (f : SealedDmFrame) (own : Bytes)
      → length f.nonce ≡ 12
      → lookup f.epoch r.epoch_secrets ≡ some own
      → length own ≡ 32
      → Shut c own f
      → open_frame c r f priv ≡ (r, err open_failed)
  known-Shut laws r f own n at l shut =
      let (key, e, _) = derive_dm_message_key_total c laws.hkdf own f.epoch f.index l in
      open_known c priv r f own at
      ∙ rw e (
          ap (λ o. (r, o))
            (decrypt-eq_err c {E = DmSessionError} laws.aead open_failed key f.nonce
              (frame_aad f.epoch f.index) f.body n (shut key e)))

  -- A frame of the log fails to open, and changes nothing, where another secret is stored for its epoch.
  pub Flow-Shut :
      (laws : Laws c) (s r : DmSession F) (log : List (SealedDmFrame × Bytes)) (f : SealedDmFrame)
      (pt own : Bytes)
      → Flow c priv s r log
      → WasSent f pt log
      → lookup f.epoch r.epoch_secrets ≡ some own
      → length own ≡ 32
      → Shut c own f
      → open_frame c r f priv ≡ (r, err open_failed)
  Flow-Shut laws s r log f pt own v was at l shut =
      known-Shut laws r f own (nonce_12 c priv laws f _ pt (v.logged f pt was).carries) at l shut
