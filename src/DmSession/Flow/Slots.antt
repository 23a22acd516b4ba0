-- ===== src/DmSession/Flow/Slots.antt =====
-- The slots of the frames that a session seals: every epoch and index is given once.
use sk_core.Prelude.{
  ℕ, ◌+◌, ◌%◌, ◌^◌, ◌<◌, ◌≡◌, refl, sym, ap, ◌∙◌, ◌⊎◌, inl, inr, some, none, List, [], ◌∷◌, length,
  arith, false, Bool-cases, Option-cases, some_injective,
}
use mathlib.Core.Path.{subst}
use sk_core.Prelude.Bytes.{Bytes, IsU64}
use sk_core.Prelude.Outcome.{Outcome, ok}
use sk_core.Crypto.{Crates, Laws, Fits}
use sk_core.Kem.{hybrid_keypair}
use sk_core.Ratchet.{DmRatchet, Float64, ratchet_should_rekey}
use sk_core.Ratchet.Outbound.{should_rekey_below}
use sk_core.DmSession.{DmSession, DmSessionError, Draws, SealedDmFrame, begin_at, seal}
use sk_core.DmSession.Sending.{
  IsReady, ReadyIf, ReadyAt, WellDrawn, advanced, seal_frame_ok, seal_Begun, begin_at-none,
}
use sk_core.DmSession.Flow.{WasSent, HasNext}

-- A slot that a ratchet has left behind.
abbrev pub IsPast : {F : Type 0} → DmRatchet F → ℕ → ℕ → Type 0
IsPast r epoch index = (epoch < r.epoch) ⊎ ((epoch ≡ r.epoch) × (index < r.message_index))

module _ {F : Type 0} where
  -- The session stands behind the slots of all frames of the log, which are all different.
  pub record Behind (s : DmSession F) (log : List (SealedDmFrame × Bytes)) : Type 0 where
    pub past :
        (f : SealedDmFrame) (pt : Bytes)
        → WasSent f pt log
        → (r : DmRatchet F) × (s.current ≡ some r) × IsPast r f.epoch f.index

-- No two frames of the log have the same epoch and index.
abbrev pub DistinctSlots : List (SealedDmFrame × Bytes) → Type 0
DistinctSlots [] = Unit {0}
DistinctSlots ((f, pt) ∷ rest) =
    ((g : SealedDmFrame) (qt : Bytes)
      → WasSent g qt rest
      → ¬ ((g.epoch ≡ f.epoch) × (g.index ≡ f.index)))
    × DistinctSlots rest

-- The frame that `seal` gives takes the slot that the session stands at, or the first of the next epoch.
pub record TakesSlot {F : Type 0} (s : DmSession F)
    (result : DmSession F × Outcome DmSessionError SealedDmFrame) : Type 0 where
  pub session : DmSession F
  pub frame : SealedDmFrame
  pub is : result ≡ (session, ok frame)
  pub ratchet : DmRatchet F
  pub now : session.current ≡ some ratchet
  pub taken : IsPast ratchet frame.epoch frame.index
  pub above :
      (r : DmRatchet F)
      → s.current ≡ some r
      → ((r.epoch < frame.epoch) ⊎ ((frame.epoch ≡ r.epoch) × (frame.index ≡ r.message_index)))
        × ((r.epoch < ratchet.epoch)
            ⊎ ((ratchet.epoch ≡ r.epoch) × (r.message_index < ratchet.message_index)))

module _ (c : Crates) (laws : Laws c) (x_seed mlkem_seed : Bytes) (seed_32 : length x_seed ≡ 32)
    {F : Type 0} (fl : Float64 F) where
  -- A message that begins an epoch.
  begins :
      (s : DmSession F) (d : Draws F) (epoch : ℕ) (plaintext : Bytes)
      → WellDrawn d
      → Fits plaintext
      → begin_at c fl s d.checked_at ≡ some epoch
      → ((r : DmRatchet F) → s.current ≡ some r → r.epoch < epoch)
      → TakesSlot s (seal c fl s d plaintext (hybrid_keypair c x_seed mlkem_seed).public_key)
  begins s d epoch plaintext drawn fits at later =
      let b = seal_Begun c laws x_seed mlkem_seed seed_32 fl s d epoch plaintext drawn fits at in
      record {
        session = b.session;
        frame = b.frame;
        is = b.is;
        ratchet = b.ratchet;
        now = b.now;
        taken = inr (b.epoch_is ∙ sym b.ratchet_is, omega (arith, b.index_is, b.next_index));
        above = λ r e.
            let up = later r e in
            (inl (omega (arith, b.epoch_is)), inl (omega (arith, b.ratchet_is)));
      }

  -- A message within an epoch.
  stays :
      (s : DmSession F) (r : DmRatchet F) (d : Draws F) (plaintext : Bytes)
      → WellDrawn d
      → Fits plaintext
      → s.current ≡ some r
      → ReadyAt c (hybrid_keypair c x_seed mlkem_seed).private_key s r
      → IsU64 r.rekey_msg_bound
      → ratchet_should_rekey fl r none d.checked_at ≡ false
      → TakesSlot s (seal c fl s d plaintext (hybrid_keypair c x_seed mlkem_seed).public_key)
  unfolding seal begin_at
  stays s r d plaintext drawn fits now ready small due =
      let at : begin_at c fl s d.checked_at ≡ none = rw (now, begin_at, due) in
      let (f, sealed, _, same_epoch, same_index, _, _) =
        seal_frame_ok c laws (hybrid_keypair c x_seed mlkem_seed).private_key s d r plaintext drawn
          fits now ready in
      let low = should_rekey_below fl r d.checked_at due in
      record {
        session = advanced s r;
        frame = f;
        is = rw (at, seal) sealed;
        ratchet = record r { message_index = (r.message_index + 1) % 2 ^ 64 };
        now = refl;
        taken = inr (same_epoch, omega (arith, same_index));
        above = λ r' e.
            let one : r ≡ r' = some_injective (sym now ∙ e) in
            let one_epoch = ap DmRatchet.epoch one in
            let one_index = ap DmRatchet.message_index one in
            (inr (same_epoch ∙ one_epoch, same_index ∙ one_index), inr (one_epoch, omega arith));
      }

  -- Sealing takes a slot.
  pub seal-TakesSlot :
      (s : DmSession F) (d : Draws F) (plaintext : Bytes)
      → WellDrawn d
      → Fits plaintext
      → IsReady c (hybrid_keypair c x_seed mlkem_seed).private_key s
      → HasNext s
      → ((r : DmRatchet F) → s.current ≡ some r → IsU64 r.rekey_msg_bound)
      → TakesSlot s (seal c fl s d plaintext (hybrid_keypair c x_seed mlkem_seed).public_key)
  unfolding begin_at
  seal-TakesSlot s d plaintext drawn fits ready last small = elim (Option-cases s.current) [
    | inl none_yet ↦
        begins s d 0 plaintext drawn fits
          (begin_at-none c laws x_seed mlkem_seed seed_32 fl s d.checked_at none_yet)
          (λ r e. absurd (cc))
    | inr (r, now) ↦ elim (Bool-cases (ratchet_should_rekey fl r none d.checked_at)) [
      | inl due ↦
          begins s d ((r.epoch + 1) % 2 ^ 64) plaintext drawn fits (rw (now, begin_at, due))
            (λ r' e.
              let fits_u64 = last r now in
              let one = ap DmRatchet.epoch (some_injective (sym now ∙ e)) in omega arith)
      | inr not_due ↦
          stays s r d plaintext drawn fits now
            (subst (ReadyIf c (hybrid_keypair c x_seed mlkem_seed).private_key s) now ready)
            (small r now) not_due
    ]
  ]

module _ {F : Type 0} where
  -- What a ratchet has left behind stays behind where it goes on.
  onward :
      (r r' : DmRatchet F) (epoch index : ℕ)
      → IsPast r epoch index
      → (r.epoch < r'.epoch) ⊎ ((r'.epoch ≡ r.epoch) × (r.message_index < r'.message_index))
      → IsPast r' epoch index
  onward r r' epoch index (inl a) (inl b) = inl (omega arith)
  onward r r' epoch index (inl a) (inr (b, c)) = inl (omega arith)
  onward r r' epoch index (inr (a, d)) (inl b) = inl (omega arith)
  onward r r' epoch index (inr (a, d)) (inr (b, c)) = inr (omega arith, omega arith)

  -- A slot that was left behind is not taken again.
  never :
      (r : DmRatchet F) (epoch index epoch' index' : ℕ)
      → IsPast r epoch index
      → (r.epoch < epoch') ⊎ ((epoch' ≡ r.epoch) × (index' ≡ r.message_index))
      → epoch ≡ epoch'
      → index ≡ index'
      → ⊥
  never r epoch index epoch' index' (inl a) (inl b) e i = omega arith
  never r epoch index epoch' index' (inl a) (inr (b, c)) e i = omega arith
  never r epoch index epoch' index' (inr (a, d)) (inl b) e i = omega arith
  never r epoch index epoch' index' (inr (a, d)) (inr (b, c)) e i = omega arith

  -- So the frame's slot is new, and the session stands behind it too.
  pub TakesSlot-new :
      (s : DmSession F) (log : List (SealedDmFrame × Bytes))
      (result : DmSession F × Outcome DmSessionError SealedDmFrame) (pt : Bytes)
      → (t : TakesSlot s result) → Behind s log
      → DistinctSlots log
      → Behind t.session ((t.frame, pt) ∷ log) × DistinctSlots ((t.frame, pt) ∷ log)
  TakesSlot-new s log result pt t b d = (
    record {
      past = λ g qt was. elim was [
        | inl (is_f, _) ↦ (t.ratchet, t.now, rw is_f t.taken)
        | inr old ↦
            let (r, e, p) = b.past g qt old in
            (t.ratchet, t.now, onward r t.ratchet g.epoch g.index p (t.above r e).1)
      ];
    },
    (
      λ g qt was (same_epoch, same_index).
          let (r, e, p) = b.past g qt was in
          never r g.epoch g.index t.frame.epoch t.frame.index p (t.above r e).0 same_epoch
            same_index,
      d,
    ),
  )

  pub Behind-same :
      (s s' : DmSession F) (log : List (SealedDmFrame × Bytes))
      → s.current ≡ s'.current
      → Behind s log
      → Behind s' log
  Behind-same s s' log same b = record {
    past = λ f pt was. let (r, e, p) = b.past f pt was in (r, sym same ∙ e, p);
  }
