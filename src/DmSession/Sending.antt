-- ===== src/DmSession/Sending.antt =====
-- The sending half: what a session needs to seal, and the two steps of `seal`.
pub mod Sealing
use sk_core.Prelude.{
  ℕ, ◌+◌, ◌%◌, ◌^◌, ◌<◌, ◌≡◌, refl, sym, ◌∙◌, ◌⊎◌, inl, inr, Option, none, some, length, ltb, arith,
  if◌then◌else◌, Bool-cases, Option-cases, lt→ltb,
}
use mathlib.Core.Path.{subst}
use sk_core.Prelude.Bytes.{Bytes}
use sk_core.Prelude.Maps.{lookup, insert, lookup-insert_self}
use sk_core.Prelude.Outcome.{Outcome, ok}
use sk_core.Crypto.{Crates, Laws, Fits}
use sk_core.Crypto.Calls.{decrypt-encrypt}
use sk_core.Kem.{hybrid_keypair}
use sk_core.Ratchet.{DmRatchet, Float64, ratchet_should_rekey, unwrap_dm_epoch_secret, with_bounds}
use sk_core.Ratchet.Wrapping.{unwrap-wrap_dm_epoch_secret}
use sk_core.Ratchet.Outbound.{next_outbound_key_ok}
use sk_core.DmSession.{
  DmSession, DmSessionError, Draws, SealedDmFrame, begin_at, begin_epoch, frame_aad, kam_repeat,
  open_failed, seal, seal_frame,
}
use sk_core.DmSession.Frame.{FrameOf, KamOf, length-frame_aad}

-- The draws have the lengths of the arrays that the source fills.
pub record WellDrawn {F : Type 0} (d : Draws F) : Type 0 where
  pub secret_32 : length d.secret ≡ 32
  pub wrap_nonce_12 : length d.wrap_nonce ≡ 12
  pub frame_nonce_12 : length d.frame_nonce ≡ 12

module _ (c : Crates) (priv : Bytes) {F : Type 0} where
  -- The ratchet's secret is stored under its epoch, and the KAM unwraps to it.
  pub record ReadyAt (s : DmSession F) (r : DmRatchet F) : Type 0 where
    pub secret_32 : length r.epoch_secret ≡ 32
    pub stored : lookup r.epoch s.epoch_secrets ≡ some r.epoch_secret
    pub wrapped : Bytes
    pub kam_is : s.current_kam ≡ some wrapped
    pub unwraps : unwrap_dm_epoch_secret c wrapped priv ≡ ok r.epoch_secret

  abbrev pub ReadyIf : DmSession F → Option (DmRatchet F) → Type 0
  ReadyIf s none = Unit {0}
  ReadyIf s (some r) = ReadyAt s r

  -- A session that has sealed nothing is ready to send.
  abbrev pub IsReady : DmSession F → Type 0
  IsReady s = ReadyIf s s.current

-- The KAM rides the first three frames of an epoch.
abbrev pub kam_at : {F : Type 0} → DmSession F → ℕ → Option Bytes
kam_at s idx = if ltb idx kam_repeat then s.current_kam else none

abbrev pub advanced : {F : Type 0} → DmSession F → DmRatchet F → DmSession F
advanced s r = record s {
  current = some (record r { message_index = (r.message_index + 1) % 2 ^ 64 });
}

module _ (c : Crates) (laws : Laws c) (priv : Bytes) {F : Type 0} where
  KamOf-kam_at :
      (s : DmSession F) (r : DmRatchet F)
      → ReadyAt c priv s r
      → KamOf c priv r.epoch_secret (kam_at s r.message_index)
  KamOf-kam_at s r ready = elim (Bool-cases (ltb r.message_index kam_repeat)) [
    | inl e ↦ rw (e, ready.kam_is) ready.unwraps
    | inr e ↦ rw e tt
  ]

  pub seal_frame_ok :
      (s : DmSession F) (d : Draws F) (r : DmRatchet F) (plaintext : Bytes)
      → WellDrawn d
      → Fits plaintext
      → s.current ≡ some r
      → ReadyAt c priv s r
      → (f : SealedDmFrame) × (seal_frame c s d plaintext ≡ (advanced s r, ok f))
        × FrameOf c priv r.epoch_secret plaintext f
        × (f.epoch ≡ r.epoch)
        × (f.index ≡ r.message_index)
        × (f.nonce ≡ d.frame_nonce)
        × (f.kam ≡ kam_at s r.message_index)
  unfolding seal_frame
  seal_frame_ok s d r plaintext drawn fits now ready =
      let (key, e, l, step) =
        next_outbound_key_ok c laws.hkdf {E = DmSessionError} r ready.secret_32 in
      let aad = frame_aad r.epoch r.message_index in
      let (body, sealed, opened, _) =
        decrypt-encrypt c {E = DmSessionError} laws.aead open_failed open_failed key d.frame_nonce
          aad plaintext l drawn.frame_nonce_12
          (omega (arith, length-frame_aad r.epoch r.message_index)) fits in
      (
        record {
          epoch = r.epoch;
          index = r.message_index;
          nonce = d.frame_nonce;
          body = body;
          kam = kam_at s r.message_index;
        },
        rw (now, seal_frame, step, sealed),
        record { key = key; derived = e; opens = opened; kam_of = KamOf-kam_at s r ready },
        refl,
        refl,
        refl,
        refl,
      )

module _ (c : Crates) (laws : Laws c) (x_seed mlkem_seed : Bytes) (seed_32 : length x_seed ≡ 32)
    {F : Type 0} (fl : Float64 F) where
  -- A new epoch begins without an error, and leaves the session ready at index 0.
  pub begin_epoch_ok :
      (s : DmSession F) (d : Draws F) (epoch : ℕ)
      → WellDrawn d
      → (s' : DmSession F) × (begin_epoch c s d epoch
            (hybrid_keypair c x_seed mlkem_seed).public_key
          ≡ (s', ok tt))
        × (s'.current
            ≡ some (with_bounds d.started_at epoch d.secret s.rekey_msg_bound s.rekey_age_seconds))
        × (s'.epoch_secrets ≡ insert epoch d.secret s.epoch_secrets)
        × ReadyAt c
            (hybrid_keypair c x_seed mlkem_seed).private_key
            s'
            (with_bounds d.started_at epoch d.secret s.rekey_msg_bound s.rekey_age_seconds)
  unfolding begin_epoch with_bounds
  begin_epoch_ok s d epoch drawn =
      let (wrapped, w, u, _) =
        unwrap-wrap_dm_epoch_secret c laws x_seed mlkem_seed d.x_eph d.mlkem_rand d.wrap_nonce
          d.secret seed_32 drawn.wrap_nonce_12 drawn.secret_32 in
      (
        record s {
          epoch_secrets = insert epoch d.secret s.epoch_secrets;
          current =
              some (with_bounds d.started_at epoch d.secret s.rekey_msg_bound s.rekey_age_seconds);
          current_kam = some wrapped;
        },
        rw (w, begin_epoch),
        refl,
        refl,
        record {
          secret_32 = drawn.secret_32;
          stored = lookup-insert_self epoch d.secret s.epoch_secrets;
          wrapped = wrapped;
          kam_is = refl;
          unwraps = u;
        },
      )

  -- The first message begins epoch 0.
  pub begin_at-none : (s : DmSession F) (now : F) → s.current ≡ none → begin_at c fl s now ≡ some 0
  unfolding begin_at
  begin_at-none s now none_yet = rw (none_yet, begin_at)

  -- What `seal` gives where it begins an epoch.
  pub record Begun (s : DmSession F) (d : Draws F) (epoch : ℕ) (plaintext : Bytes)
      (result : DmSession F × Outcome DmSessionError SealedDmFrame) : Type 0 where
    pub session : DmSession F
    pub ratchet : DmRatchet F
    pub frame : SealedDmFrame
    pub is : result ≡ (session, ok frame)
    pub carries :
        FrameOf c (hybrid_keypair c x_seed mlkem_seed).private_key d.secret plaintext frame
    pub epoch_is : frame.epoch ≡ epoch
    pub index_is : frame.index ≡ 0
    pub now : session.current ≡ some ratchet
    pub ratchet_is : ratchet.epoch ≡ epoch
    pub next_index : ratchet.message_index ≡ 1
    pub secrets : session.epoch_secrets ≡ insert epoch d.secret s.epoch_secrets

  -- A message that begins an epoch is its first frame, under the secret that was drawn for it.
  pub seal_Begun :
      (s : DmSession F) (d : Draws F) (epoch : ℕ) (plaintext : Bytes)
      → WellDrawn d
      → Fits plaintext
      → begin_at c fl s d.checked_at ≡ some epoch
      → Begun s d epoch plaintext
          (seal c fl s d plaintext (hybrid_keypair c x_seed mlkem_seed).public_key)
  unfolding seal with_bounds
  seal_Begun s d epoch plaintext drawn fits at =
      let r = with_bounds d.started_at epoch d.secret s.rekey_msg_bound s.rekey_age_seconds in
      let (s₁, begun, current, secrets, ready) = begin_epoch_ok s d epoch drawn in
      let (f, sealed, carries, same_epoch, same_index, _, _) =
        seal_frame_ok c laws (hybrid_keypair c x_seed mlkem_seed).private_key s₁ d r plaintext drawn
          fits current ready in
      record {
        session = advanced s₁ r;
        ratchet = record r { message_index = (r.message_index + 1) % 2 ^ 64 };
        frame = f;
        is = rw (at, seal, begun, sealed);
        carries = carries;
        epoch_is = same_epoch;
        index_is = same_index;
        now = refl;
        ratchet_is = refl;
        next_index = refl;
        secrets = secrets;
      }
