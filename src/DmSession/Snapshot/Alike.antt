-- ===== src/DmSession/Snapshot/Alike.antt =====
-- Sessions that answer alike, through one call of `seal` or `open`.
use sk_core.Prelude.{ℕ, ◌≡◌, refl, sym, ◌∙◌, none, some, List, inl, inr, Option-cases}
use sk_core.Prelude.Bytes.{Bytes}
use sk_core.Prelude.Maps.{lookup, insert}
use sk_core.Prelude.Maps.Distinct.{lookup-insert_if}
use sk_core.Prelude.Outcome.{Outcome, ok, err, panic, Outcome-cases}
use sk_core.Crypto.{Crates}
use sk_core.Ratchet.{
  Float64, next_outbound_key, derive_dm_message_key, wrap_dm_epoch_secret, unwrap_dm_epoch_secret,
}
use sk_core.DmSession.{
  DmSession, DmSessionError, Draws, SealedDmFrame, and_then, begin_epoch, seal_frame, begin_at,
  seal, accept_kam, open_frame, open_body,
}
use sk_core.DmSession.Snapshot.RoundTrip.{Same}

-- Two calls that give the same answer and leave sessions that answer alike.
abbrev SameCall :
    {F B : Type 0}
    → DmSession F × Outcome DmSessionError B
    → DmSession F × Outcome DmSessionError B
    → Type 0
SameCall r r' = Same r.0 r'.0 × (r.1 ≡ r'.1)

and_then-SameCall :
    {F B : Type 0} (r r' : DmSession F × Outcome DmSessionError (Unit {0}))
    (f : DmSession F → DmSession F × Outcome DmSessionError B)
    → SameCall r r'
    → ((s s' : DmSession F) → Same s s' → SameCall (f s) (f s'))
    → SameCall (and_then r f) (and_then r' f)
and_then-SameCall (s, ok _) (s', ok _) f h k = k s s' h.0
and_then-SameCall (s, ok _) (s', err _) f h k = cc (h.1)
and_then-SameCall (s, ok _) (s', panic) f h k = cc (h.1)
and_then-SameCall (s, err _) (s', ok _) f h k = cc (h.1)
and_then-SameCall (s, err e) (s', err e') f h k = (h.0, cc (h.1))
and_then-SameCall (s, err _) (s', panic) f h k = cc (h.1)
and_then-SameCall (s, panic) (s', ok _) f h k = cc (h.1)
and_then-SameCall (s, panic) (s', err _) f h k = cc (h.1)
and_then-SameCall (s, panic) (s', panic) f h k = (h.0, refl)

insert-alike :
    (m m' : List (ℕ × Bytes)) (key : ℕ) (v : Bytes)
    → ((epoch : ℕ) → lookup epoch m ≡ lookup epoch m')
    → (epoch : ℕ) → lookup epoch (insert key v m) ≡ lookup epoch (insert key v m')
insert-alike m m' key v h epoch =
    rw (lookup-insert_if key epoch v m, lookup-insert_if key epoch v m', h epoch)

module _ {F : Type 0} (c : Crates) where
  begin_epoch-Same :
      (s s' : DmSession F) (d : Draws F) (epoch : ℕ) (pub_key : Bytes)
      → Same s s'
      → SameCall (begin_epoch c s d epoch pub_key) (begin_epoch c s' d epoch pub_key)
  unfolding begin_epoch
  begin_epoch-Same s s' d epoch pub_key h =
      elim (Outcome-cases
        (wrap_dm_epoch_secret c d.x_eph d.mlkem_rand d.wrap_nonce d.secret pub_key)) [
          | inl (w, e) ↦
              rw (begin_epoch, e, h.same_bound, h.same_age)
                (
                  record {
                    same_peer = h.same_peer;
                    same_bound = refl;
                    same_age = refl;
                    same_current = refl;
                    same_secrets =
                        insert-alike s.epoch_secrets s'.epoch_secrets epoch d.secret h.same_secrets;
                    same_kam = refl;
                  },
                  refl,
                )
          | inr (inl (x, e)) ↦ rw (begin_epoch, e) (h, refl)
          | inr (inr e) ↦ rw (begin_epoch, e) (h, refl)
        ]

  seal_frame-Same :
      (s s' : DmSession F) (d : Draws F) (plaintext : Bytes)
      → Same s s'
      → SameCall (seal_frame c s d plaintext) (seal_frame c s' d plaintext)
  unfolding seal_frame next_outbound_key
  seal_frame-Same s s' d plaintext h = elim (Option-cases s.current) [
    | inl e ↦
        let e' : s'.current ≡ none = sym h.same_current ∙ e in rw (e, e', seal_frame) (h, refl)
    | inr (r, e) ↦
        let e' : s'.current ≡ some r = sym h.same_current ∙ e in
        elim (Outcome-cases (derive_dm_message_key c r.epoch_secret r.epoch r.message_index)) [
          | inl (key, k) ↦
              rw (e, e', seal_frame, next_outbound_key, k, h.same_kam)
                (
                  record {
                    same_peer = h.same_peer;
                    same_bound = h.same_bound;
                    same_age = h.same_age;
                    same_current = refl;
                    same_secrets = h.same_secrets;
                    same_kam = refl;
                  },
                  refl,
                )
          | inr (inl (x, k)) ↦ rw (e, e', seal_frame, next_outbound_key, k) (h, refl)
          | inr (inr k) ↦ rw (e, e', seal_frame, next_outbound_key, k) (h, refl)
        ]
  ]

  pub seal-Same :
      (fl : Float64 F) (s s' : DmSession F) (d : Draws F) (plaintext pub_key : Bytes)
      → Same s s'
      → SameCall (seal c fl s d plaintext pub_key) (seal c fl s' d plaintext pub_key)
  unfolding seal begin_at
  seal-Same fl s s' d plaintext pub_key h =
      let at : begin_at c fl s' d.checked_at ≡ begin_at c fl s d.checked_at =
        rw (begin_at, sym h.same_current) in
      elim (Option-cases (begin_at c fl s d.checked_at)) [
        | inl e ↦ rw (seal, at, e) (seal_frame-Same s s' d plaintext h)
        | inr (epoch, e) ↦
            rw (seal, at, e)
              (and_then-SameCall (begin_epoch c s d epoch pub_key)
                (begin_epoch c s' d epoch pub_key) (λ t. seal_frame c t d plaintext)
                (begin_epoch-Same s s' d epoch pub_key h)
                (λ t t' k. seal_frame-Same t t' d plaintext k))
      ]

  accept_kam-Same :
      (s s' : DmSession F) (f : SealedDmFrame) (priv : Bytes)
      → Same s s'
      → SameCall (accept_kam c s f priv) (accept_kam c s' f priv)
  unfolding accept_kam
  accept_kam-Same s s' f priv h = elim (Option-cases f.kam) [
    | inl e ↦ rw (e, accept_kam) (h, refl)
    | inr (wrapped, e) ↦ elim (Option-cases (lookup f.epoch s.epoch_secrets)) [
      | inr (_, k) ↦
          let k' = sym (h.same_secrets f.epoch) ∙ k in rw (e, accept_kam, k, k') (h, refl)
      | inl k ↦
          let k' = sym (h.same_secrets f.epoch) ∙ k in
          elim (Outcome-cases (unwrap_dm_epoch_secret c wrapped priv)) [
            | inl (secret, u) ↦
                rw (e, accept_kam, k, k', u)
                  (
                    record {
                      same_peer = h.same_peer;
                      same_bound = h.same_bound;
                      same_age = h.same_age;
                      same_current = h.same_current;
                      same_secrets =
                          insert-alike s.epoch_secrets s'.epoch_secrets f.epoch secret
                            h.same_secrets;
                      same_kam = h.same_kam;
                    },
                    refl,
                  )
            | inr (inl (_, u)) ↦ rw (e, accept_kam, k, k', u) (h, refl)
            | inr (inr u) ↦ rw (e, accept_kam, k, k', u) (h, refl)
          ]
    ]
  ]

  pub open_frame-Same :
      (s s' : DmSession F) (f : SealedDmFrame) (priv : Bytes)
      → Same s s'
      → SameCall (open_frame c s f priv) (open_frame c s' f priv)
  unfolding open_frame open_body
  open_frame-Same s s' f priv h =
      and_then-SameCall (accept_kam c s f priv) (accept_kam c s' f priv) (λ t. (t, open_body c t f))
        (accept_kam-Same s s' f priv h) (λ t t' k. (k, rw (open_body, k.same_secrets f.epoch)))
