-- ===== src/DmSession/Sending/Sealing.antt =====
-- `seal` always gives a frame of the current epoch, and keeps the session ready.
use sk_core.Prelude.{
  ℕ, ◌+◌, ◌%◌, ◌^◌, ◌<◌, ◌≡◌, refl, sym, ◌∙◌, ◌⊎◌, inl, inr, Option, none, some, length, arith,
  Bool-cases, Option-cases, lt→ltb,
}
use mathlib.Core.Path.{subst}
use sk_core.Prelude.Bytes.{Bytes}
use sk_core.Prelude.Maps.{lookup, insert}
use sk_core.Prelude.Outcome.{Outcome, ok}
use sk_core.Crypto.{Crates, Laws, Fits}
use sk_core.Kem.{hybrid_keypair}
use sk_core.Ratchet.{DmRatchet, Float64, ratchet_should_rekey, with_bounds}
use sk_core.DmSession.{DmSession, DmSessionError, Draws, SealedDmFrame, begin_at, seal, seal_frame}
use sk_core.DmSession.Frame.{FrameOf}
use sk_core.DmSession.Sending.{
  IsReady, ReadyIf, ReadyAt, WellDrawn, advanced, kam_at, seal_frame_ok, begin_epoch_ok,
  begin_at-none,
}

-- How a session may change its secrets: not at all, or by the one of a new epoch.
pub data Grows {F : Type 0} (s s' : DmSession F) (epoch : ℕ) (secret : Bytes) : Type 0 where
  same :
      (r : DmRatchet F)
      → s'.epoch_secrets ≡ s.epoch_secrets
      → s.current ≡ some r
      → epoch ≡ r.epoch
      → Grows s s' epoch secret
  added :
      s'.epoch_secrets ≡ insert epoch secret s.epoch_secrets
      → (s.current ≡ none) × (epoch ≡ 0)
        ⊎ ((r : DmRatchet F) × (s.current ≡ some r) × (epoch ≡ (r.epoch + 1) % 2 ^ 64))
      → Grows s s' epoch secret

module _ (c : Crates) (laws : Laws c) (x_seed mlkem_seed : Bytes) (seed_32 : length x_seed ≡ 32)
    {F : Type 0} (fl : Float64 F) where
  -- What `seal` promises of the session before it, and of the session and the answer after it.
  pub record Sent (s : DmSession F) (plaintext : Bytes)
      (result : DmSession F × Outcome DmSessionError SealedDmFrame) : Type 0 where
    pub session : DmSession F
    pub frame : SealedDmFrame
    pub secret : Bytes
    pub is : result ≡ (session, ok frame)
    pub ready : IsReady c (hybrid_keypair c x_seed mlkem_seed).private_key session
    pub at : (r : DmRatchet F) × (session.current ≡ some r) × (r.epoch ≡ frame.epoch)
    pub stored : lookup frame.epoch session.epoch_secrets ≡ some secret
    pub carries : FrameOf c (hybrid_keypair c x_seed mlkem_seed).private_key secret plaintext frame
    pub nonce_12 : length frame.nonce ≡ 12
    pub kam_early : frame.index < 3 → (k : Bytes) × (frame.kam ≡ some k)
    pub grows : Grows s session frame.epoch secret

  kam_early :
      (s : DmSession F) (r : DmRatchet F) (index : ℕ) (kam : Option Bytes)
      → ReadyAt c (hybrid_keypair c x_seed mlkem_seed).private_key s r
      → index ≡ r.message_index
      → kam ≡ kam_at s r.message_index
      → index < 3
      → (k : Bytes) × (kam ≡ some k)
  kam_early s r index kam ready i k h =
      (ready.wrapped, k ∙ rw (lt→ltb r.message_index 3 (omega arith), ready.kam_is))

  -- `seal` after its epoch is settled, from a session `s` that grew to `s₁`.
  settled :
      (s s₁ : DmSession F) (d : Draws F) (r : DmRatchet F) (plaintext : Bytes)
      → WellDrawn d
      → Fits plaintext
      → s₁.current ≡ some r
      → ReadyAt c (hybrid_keypair c x_seed mlkem_seed).private_key s₁ r
      → Grows s s₁ r.epoch r.epoch_secret
      → Sent s plaintext (seal_frame c s₁ d plaintext)
  settled s s₁ d r plaintext drawn fits now ready grows =
      let (f, e, carries, ep, ix, nonce, kam) =
        seal_frame_ok c laws (hybrid_keypair c x_seed mlkem_seed).private_key s₁ d r plaintext drawn
          fits now ready in
      record {
        session = advanced s₁ r;
        frame = f;
        secret = r.epoch_secret;
        is = e;
        ready = record {
          secret_32 = ready.secret_32;
          stored = ready.stored;
          wrapped = ready.wrapped;
          kam_is = ready.kam_is;
          unwraps = ready.unwraps;
        };
        at = (_, refl, sym ep);
        stored = rw ep ready.stored;
        carries = carries;
        nonce_12 = rw nonce drawn.frame_nonce_12;
        kam_early = kam_early s₁ r f.index f.kam ready ix kam;
        grows = rw ep (regrow grows);
      }
    where
      regrow : Grows s s₁ r.epoch r.epoch_secret → Grows s (advanced s₁ r) r.epoch r.epoch_secret
      regrow (same r₀ e now here) = same r₀ e now here
      regrow (added e why) = added e why

  begun :
      (s : DmSession F) (d : Draws F) (epoch : ℕ) (plaintext : Bytes)
      → WellDrawn d
      → Fits plaintext
      → begin_at c fl s d.checked_at ≡ some epoch
      → (s.current ≡ none) × (epoch ≡ 0)
        ⊎ ((r : DmRatchet F) × (s.current ≡ some r) × (epoch ≡ (r.epoch + 1) % 2 ^ 64))
      → Sent s plaintext (seal c fl s d plaintext (hybrid_keypair c x_seed mlkem_seed).public_key)
  unfolding seal
  begun s d epoch plaintext drawn fits e why =
      let (s₁, b, now, secrets, ready) =
        begin_epoch_ok c laws x_seed mlkem_seed seed_32 fl s d epoch drawn in
      rw (e, seal, b)
        (settled s s₁ d _ plaintext drawn fits now ready (unfold with_bounds in added secrets why))

  -- With draws of the right lengths and a plaintext that AES-GCM takes, a session that is ready
  -- seals to a key made from a seed of 32 bytes: the frame carries the plaintext under a secret
  -- that the session stores for the frame's epoch, with the KAM while its index is below 3, and the
  -- session stays ready. Its secrets change only by that of a new epoch.
  pub seal_ok :
      (s : DmSession F) (d : Draws F) (plaintext : Bytes)
      → WellDrawn d
      → Fits plaintext
      → IsReady c (hybrid_keypair c x_seed mlkem_seed).private_key s
      → Sent s plaintext (seal c fl s d plaintext (hybrid_keypair c x_seed mlkem_seed).public_key)
  unfolding seal begin_at
  seal_ok s d plaintext drawn fits ready = elim (Option-cases s.current) [
    | inl none_yet ↦
        begun s d 0 plaintext drawn fits
          (begin_at-none c laws x_seed mlkem_seed seed_32 fl s d.checked_at none_yet)
          (inl (none_yet, refl))
    | inr (r, now) ↦ elim (Bool-cases (ratchet_should_rekey fl r none d.checked_at)) [
      | inl due ↦
          begun s d ((r.epoch + 1) % 2 ^ 64) plaintext drawn fits (rw (now, begin_at, due))
            (inr (r, now, refl))
      | inr not_due ↦
          let stay : begin_at c fl s d.checked_at ≡ none = rw (now, begin_at, not_due) in
          rw (stay, seal)
            (settled s s d r plaintext drawn fits now
              (subst (ReadyIf c (hybrid_keypair c x_seed mlkem_seed).private_key s) now ready)
              (same r refl now refl))
    ]
  ]
