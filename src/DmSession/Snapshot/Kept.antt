-- ===== src/DmSession/Snapshot/Kept.antt =====
-- Every operation of a session keeps what `snapshot` needs.
use sk_core.Prelude.{
  ℕ, ◌≡◌, refl, sym, ap, ◌∙◌, none, some, length, arith, inl, inr, Option-cases, Bool-cases,
  some_injective,
}
use mathlib.Core.Path.{subst}
use sk_core.Prelude.Bytes.{Bytes, IsU64}
use sk_core.Prelude.Maps.{lookup, insert, lookup-insert_self, lookup-insert_ne}
use sk_core.Prelude.Maps.Distinct.{insert-Distinct, AllEntries-insert}
use sk_core.Prelude.Outcome.{Outcome, ok, err, panic, Outcome-cases}
use sk_core.Crypto.{Crates, Laws}
use sk_core.Json.Access.{JsonNumbers}
use sk_core.Ratchet.{
  Float64, RatchetError, with_bounds, derive_dm_message_key, next_outbound_key,
  wrap_dm_epoch_secret, unwrap_dm_epoch_secret, ratchet_should_rekey,
}
use sk_core.Ratchet.Wrapping.{
  UnwrapAnswer, wrong_payload, wrong_private, refused, recovered, unwrap_dm_epoch_secret_answer,
}
use sk_core.DmSession.{
  DmSession, DmSessionError, Draws, SealedDmFrame, and_then, begin_epoch, seal_frame, begin_at,
  seal, accept_kam, open_frame, open_body,
}
use sk_core.DmSession.Sending.{WellDrawn}
use sk_core.DmSession.Snapshot.Secrets.{IsSecret}
use sk_core.DmSession.Snapshot.Stored.{IsFinite, IsStored, RatchetStored}

module _ {N F : Type 0} (numbers : JsonNumbers N F) where
  and_then-IsStored :
      {B : Type 0} (r : DmSession F × Outcome DmSessionError (Unit {0}))
      (f : DmSession F → DmSession F × Outcome DmSessionError B)
      → IsStored numbers r.0
      → ((s : DmSession F) → IsStored numbers s → IsStored numbers (f s).0)
      → IsStored numbers (and_then r f).0
  and_then-IsStored (s, ok _) f h k = k s h
  and_then-IsStored (s, err e) f h k = h
  and_then-IsStored (s, panic) f h k = h

  module _ (c : Crates) where
    begin_epoch-IsStored :
        (s : DmSession F) (d : Draws F) (epoch : ℕ) (pub_key : Bytes)
        → WellDrawn d
        → IsFinite numbers d.started_at
        → IsU64 epoch
        → IsStored numbers s
        → IsStored numbers (begin_epoch c s d epoch pub_key).0
    unfolding begin_epoch with_bounds
    begin_epoch-IsStored s d epoch pub_key drawn finite he v =
        elim (Outcome-cases
          (wrap_dm_epoch_secret c d.x_eph d.mlkem_rand d.wrap_nonce d.secret pub_key)) [
            | inl (w, e) ↦
                rw (begin_epoch, e)
                  (record {
                    bound_u64 = v.bound_u64;
                    age_u64 = v.age_u64;
                    distinct = insert-Distinct epoch d.secret s.epoch_secrets v.distinct;
                    secrets =
                        AllEntries-insert IsSecret epoch d.secret s.epoch_secrets
                          (he, drawn.secret_32) v.secrets;
                    outbound = λ r k. subst (RatchetStored numbers _) (some_injective k) (record {
                      secret_stored = lookup-insert_self epoch d.secret s.epoch_secrets;
                      epoch_u64 = he;
                      index_u64 = omega arith;
                      same_bound = refl;
                      same_age = refl;
                      finite = finite;
                    });
                  })
            | inr (inl (x, e)) ↦ rw (begin_epoch, e) v
            | inr (inr e) ↦ rw (begin_epoch, e) v
          ]

    seal_frame-IsStored :
        (s : DmSession F) (d : Draws F) (plaintext : Bytes)
        → IsStored numbers s
        → IsStored numbers (seal_frame c s d plaintext).0
    unfolding seal_frame next_outbound_key
    seal_frame-IsStored s d plaintext v = elim (Option-cases s.current) [
      | inl e ↦ rw (e, seal_frame) v
      | inr (r, e) ↦
          elim (Outcome-cases (derive_dm_message_key c r.epoch_secret r.epoch r.message_index)) [
            | inl (key, k) ↦
                rw (e, seal_frame, next_outbound_key, k)
                  (record {
                    bound_u64 = v.bound_u64;
                    age_u64 = v.age_u64;
                    distinct = v.distinct;
                    secrets = v.secrets;
                    outbound = λ r' at_r'.
                        let o = v.outbound r e in
                        subst (RatchetStored numbers _) (some_injective at_r') (record {
                          secret_stored = o.secret_stored;
                          epoch_u64 = o.epoch_u64;
                          index_u64 = omega arith;
                          same_bound = o.same_bound;
                          same_age = o.same_age;
                          finite = o.finite;
                        });
                  })
            | inr (inl (x, k)) ↦ rw (e, seal_frame, next_outbound_key, k) v
            | inr (inr k) ↦ rw (e, seal_frame, next_outbound_key, k) v
          ]
    ]

    begin_at-IsU64 :
        (fl : Float64 F) (s : DmSession F) (now : F) (epoch : ℕ)
        → begin_at c fl s now ≡ some epoch
        → IsU64 epoch
    unfolding begin_at
    begin_at-IsU64 fl s now epoch e = elim (Option-cases s.current) [
      | inl k ↦ omega (arith, some_injective (rw (k, begin_at) at e))
      | inr (r, k) ↦ elim (Bool-cases (ratchet_should_rekey fl r none now)) [
        | inl b ↦ omega (arith, some_injective (rw (k, begin_at, b) at e))
        | inr b ↦ cc (rw (k, begin_at, b) at e)
      ]
    ]

    -- Whatever `seal` answers, errors and panics included, the session stays storable.
    pub seal-IsStored :
        (fl : Float64 F) (s : DmSession F) (d : Draws F) (plaintext pub_key : Bytes)
        → WellDrawn d
        → IsFinite numbers d.started_at
        → IsStored numbers s
        → IsStored numbers (seal c fl s d plaintext pub_key).0
    unfolding seal
    seal-IsStored fl s d plaintext pub_key drawn finite v =
        elim (Option-cases (begin_at c fl s d.checked_at)) [
          | inl e ↦ rw (e, seal) (seal_frame-IsStored s d plaintext v)
          | inr (epoch, e) ↦
              rw (e, seal)
                (and_then-IsStored (begin_epoch c s d epoch pub_key)
                  (λ s'. seal_frame c s' d plaintext)
                  (begin_epoch-IsStored s d epoch pub_key drawn finite
                    (begin_at-IsU64 fl s d.checked_at epoch e) v)
                  (λ s' v'. seal_frame-IsStored s' d plaintext v'))
        ]

    unwrapped_32 :
        (laws : Laws c) (payload priv secret : Bytes)
        → unwrap_dm_epoch_secret c payload priv ≡ ok secret
        → length secret ≡ 32
    unwrapped_32 laws payload priv secret e =
        of_answer _ (unwrap_dm_epoch_secret_answer c laws payload priv) e
      where
        of_answer :
            (o : Outcome RatchetError Bytes)
            → UnwrapAnswer payload priv o
            → o ≡ ok secret
            → length secret ≡ 32
        of_answer o (wrong_payload _) e = cc
        of_answer o (wrong_private _ _) e = cc
        of_answer o (refused _ _) e = cc
        of_answer o (recovered found _ _ l) e =
            let same : found ≡ secret = cc in ap length (sym same) ∙ l

    insert-IsStored :
        (s : DmSession F) (epoch : ℕ) (secret : Bytes)
        → lookup epoch s.epoch_secrets ≡ none
        → IsSecret epoch secret
        → IsStored numbers s
        → IsStored numbers (record s { epoch_secrets = insert epoch secret s.epoch_secrets })
    insert-IsStored s epoch secret new h v = record {
      bound_u64 = v.bound_u64;
      age_u64 = v.age_u64;
      distinct = insert-Distinct epoch secret s.epoch_secrets v.distinct;
      secrets = AllEntries-insert IsSecret epoch secret s.epoch_secrets h v.secrets;
      outbound = λ r e.
          let o = v.outbound r e in
          record {
            secret_stored =
                lookup-insert_ne epoch r.epoch secret s.epoch_secrets
                  (λ same. cc (sym new ∙ ap (λ x. lookup x s.epoch_secrets) same ∙ o.secret_stored))
                ∙ o.secret_stored;
            epoch_u64 = o.epoch_u64;
            index_u64 = o.index_u64;
            same_bound = o.same_bound;
            same_age = o.same_age;
            finite = o.finite;
          };
    }

    accept_kam-IsStored :
        (laws : Laws c) (s : DmSession F) (f : SealedDmFrame) (priv : Bytes)
        → IsU64 f.epoch
        → IsStored numbers s
        → IsStored numbers (accept_kam c s f priv).0
    unfolding accept_kam
    accept_kam-IsStored laws s f priv he v = elim (Option-cases f.kam) [
      | inl e ↦ rw (e, accept_kam) v
      | inr (wrapped, e) ↦ elim (Option-cases (lookup f.epoch s.epoch_secrets)) [
        | inr (_, k) ↦ rw (e, accept_kam, k) v
        | inl k ↦ elim (Outcome-cases (unwrap_dm_epoch_secret c wrapped priv)) [
          | inl (secret, u) ↦
              rw (e, accept_kam, k, u)
                (insert-IsStored s f.epoch secret k (he, unwrapped_32 laws wrapped priv secret u) v)
          | inr (inl (_, u)) ↦ rw (e, accept_kam, k, u) v
          | inr (inr u) ↦ rw (e, accept_kam, k, u) v
        ]
      ]
    ]

    -- Whatever the frame and the key, the session stays storable after `open`.
    pub open_frame-IsStored :
        (laws : Laws c) (s : DmSession F) (f : SealedDmFrame) (priv : Bytes)
        → IsU64 f.epoch
        → IsStored numbers s
        → IsStored numbers (open_frame c s f priv).0
    unfolding open_frame
    open_frame-IsStored laws s f priv he v =
        and_then-IsStored (accept_kam c s f priv) (λ s'. (s', open_body c s' f))
          (accept_kam-IsStored laws s f priv he v) (λ s' v'. v')
