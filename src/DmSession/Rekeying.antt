-- ===== src/DmSession/Rekeying.antt =====
-- Rekeying: a sender that goes on sealing comes to a new epoch.
use sk_core.Prelude.{
  ℕ, ◌+◌, ◌%◌, ◌^◌, ◌≤◌, ◌<◌, ◌≡◌, refl, sym, ap, ◌⊎◌, inl, inr, true, false, none, some, List, [],
  ◌∷◌, length, arith, Bool-cases,
}
use mathlib.Core.Path.{subst}
use sk_core.Prelude.Bytes.{Bytes, IsU64}
use sk_core.Prelude.Outcome.{Outcome, ok}
use sk_core.Crypto.{Crates, Laws, Fits}
use sk_core.Kem.{hybrid_keypair}
use sk_core.Ratchet.{DmRatchet, Float64, ratchet_should_rekey}
use sk_core.Ratchet.Outbound.{should_rekey_below}
use sk_core.DmSession.{DmSession, DmSessionError, Draws, SealedDmFrame, begin_at, seal}
use sk_core.DmSession.Sending.{
  IsReady, ReadyIf, ReadyAt, WellDrawn, advanced, seal_frame_ok, seal_Begun,
}

-- The messages that one session seals in turn, each with its draws, and the answers.
pub seal_all :
    {F : Type 0}
    → Crates
    → Float64 F
    → Bytes
    → DmSession F
    → List (Draws F × Bytes)
    → List (Outcome DmSessionError SealedDmFrame)
seal_all c fl pub_key s [] = []
seal_all c fl pub_key s (m ∷ ms) =
    let r = seal c fl s m.0 m.1 pub_key in r.1 ∷ seal_all c fl pub_key r.0 ms

abbrev AllSealable : {F : Type 0} → List (Draws F × Bytes) → Type 0
AllSealable [] = Unit {0}
AllSealable (m ∷ ms) = (WellDrawn m.0 × Fits m.1) × AllSealable ms

-- One of the answers is the first frame of an epoch.
abbrev pub Begins : ℕ → List (Outcome DmSessionError SealedDmFrame) → Type 0
Begins epoch [] = ⊥
Begins epoch (o ∷ os) =
    ((f : SealedDmFrame) × (o ≡ ok f) × (f.epoch ≡ epoch) × (f.index ≡ 0)) ⊎ Begins epoch os

module _ (c : Crates) (laws : Laws c) (x_seed mlkem_seed : Bytes) (seed_32 : length x_seed ≡ 32)
    {F : Type 0} (fl : Float64 F) where
  -- A message that is due to begin an epoch is its first frame.
  seal_due :
      (s : DmSession F) (r : DmRatchet F) (d : Draws F) (plaintext : Bytes)
      → WellDrawn d
      → Fits plaintext
      → s.current ≡ some r
      → ratchet_should_rekey fl r none d.checked_at ≡ true
      → (f : SealedDmFrame) × ((seal c fl s d plaintext
            (hybrid_keypair c x_seed mlkem_seed).public_key).1
          ≡ ok f)
        × (f.epoch ≡ (r.epoch + 1) % 2 ^ 64)
        × (f.index ≡ 0)
  unfolding begin_at
  seal_due s r d plaintext drawn fits now due =
      let epoch = (r.epoch + 1) % 2 ^ 64 in
      let at : begin_at c fl s d.checked_at ≡ some epoch = rw (now, begin_at, due) in
      let b = seal_Begun c laws x_seed mlkem_seed seed_32 fl s d epoch plaintext drawn fits at in
      (b.frame, ap (λ q. q.1) b.is, b.epoch_is, b.index_is)

  -- A message that is not due leaves the session ready in its epoch, with the next index.
  seal_not_due :
      (s : DmSession F) (r : DmRatchet F) (d : Draws F) (plaintext : Bytes)
      → WellDrawn d
      → Fits plaintext
      → s.current ≡ some r
      → ReadyAt c (hybrid_keypair c x_seed mlkem_seed).private_key s r
      → ratchet_should_rekey fl r none d.checked_at ≡ false
      → (seal c fl s d plaintext (hybrid_keypair c x_seed mlkem_seed).public_key).0 ≡ advanced s r
  unfolding seal begin_at
  seal_not_due s r d plaintext drawn fits now ready due =
      let at : begin_at c fl s d.checked_at ≡ none = rw (now, begin_at, due) in
      let (_, sealed, _, _, _, _, _) =
        seal_frame_ok c laws (hybrid_keypair c x_seed mlkem_seed).private_key s d r plaintext drawn
          fits now ready in
      rw (at, seal, sealed)

  advanced-ReadyAt :
      (s : DmSession F) (r : DmRatchet F)
      → ReadyAt c (hybrid_keypair c x_seed mlkem_seed).private_key s r
      → ReadyAt c
          (hybrid_keypair c x_seed mlkem_seed).private_key
          (advanced s r)
          (record r { message_index = (r.message_index + 1) % 2 ^ 64 })
  advanced-ReadyAt s r ready = record {
    secret_32 = ready.secret_32;
    stored = ready.stored;
    wrapped = ready.wrapped;
    kam_is = ready.kam_is;
    unwraps = ready.unwraps;
  }

  seal_all-Begins_at :
      (s : DmSession F) (r : DmRatchet F) (ms : List (Draws F × Bytes))
      → s.current ≡ some r
      → ReadyAt c (hybrid_keypair c x_seed mlkem_seed).private_key s r
      → AllSealable ms
      → IsU64 r.rekey_msg_bound
      → 1 ≤ length ms
      → r.rekey_msg_bound < r.message_index + length ms
      → Begins
          ((r.epoch + 1) % 2 ^ 64)
          (seal_all c fl (hybrid_keypair c x_seed mlkem_seed).public_key s ms)
  unfolding seal_all
  seal_all-Begins_at s r [] now ready h hb some_left over = absurd (omega arith)
  seal_all-Begins_at s r (m ∷ ms) now ready h hb some_left over =
      elim (Bool-cases (ratchet_should_rekey fl r none m.0.checked_at)) [
        | inl due ↦ inl (seal_due s r m.0 m.1 h.0.0 h.0.1 now due)
        | inr not_due ↦
            let low = should_rekey_below fl r m.0.checked_at not_due in
            inr (
              subst
                (λ t.
                  Begins ((r.epoch + 1) % 2 ^ 64)
                    (seal_all c fl (hybrid_keypair c x_seed mlkem_seed).public_key t ms))
                (sym (seal_not_due s r m.0 m.1 h.0.0 h.0.1 now ready not_due))
                (seal_all-Begins_at (advanced s r)
                  (record r { message_index = (r.message_index + 1) % 2 ^ 64 }) ms refl
                  (advanced-ReadyAt s r ready) h.1 hb (omega arith) (omega arith)))
      ]

  -- Let a session be ready to send, with a message bound that fits a `u64`, and let it seal at least one
  -- message, with draws of the right lengths and plaintexts that AES-GCM takes, to a key made from a
  -- seed of 32 bytes. If these messages take its index over the bound, then, whatever the clock says,
  -- one of them is the first frame of the epoch that follows the current one.
  pub seal_all-Begins :
      (s : DmSession F) (r : DmRatchet F) (ms : List (Draws F × Bytes))
      → s.current ≡ some r
      → IsReady c (hybrid_keypair c x_seed mlkem_seed).private_key s
      → AllSealable ms
      → IsU64 r.rekey_msg_bound
      → 1 ≤ length ms
      → r.rekey_msg_bound < r.message_index + length ms
      → Begins
          ((r.epoch + 1) % 2 ^ 64)
          (seal_all c fl (hybrid_keypair c x_seed mlkem_seed).public_key s ms)
  seal_all-Begins s r ms now ready h hb some_left over =
      seal_all-Begins_at s r ms now
        (subst (ReadyIf c (hybrid_keypair c x_seed mlkem_seed).private_key s) now ready) h hb
        some_left over
