-- ===== src/DmSession/Flow/Moves.antt =====
-- How `seal`, `open` and a restart change a session: what it owns stays, and what it may learn.
use sk_core.Prelude.{
  ℕ, ◌≤◌, ◌≡◌, sym, ap, ◌∙◌, ◌⊎◌, inl, inr, Option, some, none, arith, Option-cases, some_injective,
}
use mathlib.Core.Path.{subst}
use native.Mathlib.Decide.{ℕ_discrete}
use sk_core.Prelude.Bytes.{Bytes}
use sk_core.Prelude.Maps.{lookup, insert, lookup-insert_self, lookup-insert_ne}
use sk_core.Crypto.{Crates}
use sk_core.Ratchet.{DmRatchet}
use sk_core.DmSession.{DmSession}
use sk_core.DmSession.Sending.{IsReady, ReadyIf, ReadyAt}
use sk_core.DmSession.Sending.Sealing.{Grows, same, added}
use sk_core.DmSession.Snapshot.RoundTrip.{Same}
use sk_core.DmSession.Flow.{Owns, Keeps, HasNext}

module _ {F : Type 0} where
  -- An epoch that is owned is not after the current one.
  Owns-le :
      (s : DmSession F) (r : DmRatchet F) (e : ℕ) → s.current ≡ some r → Owns s e → e ≤ r.epoch
  Owns-le s r e now (r', now', le) =
      let one : r'.epoch ≡ r.epoch = ap DmRatchet.epoch (some_injective (sym now' ∙ now)) in
      omega arith

  -- A secret that is stored stays when another is added, unless it is for the epoch now begun.
  lookup-adding :
      (s s' : DmSession F) (epoch : ℕ) (secret : Bytes) (r' : DmRatchet F)
      → s'.epoch_secrets ≡ insert epoch secret s.epoch_secrets
      → s'.current ≡ some r'
      → r'.epoch ≡ epoch
      → (e : ℕ) (x : Bytes) → lookup e s.epoch_secrets ≡ some x
      → (lookup e s'.epoch_secrets ≡ some x) ⊎ Owns s' e
  lookup-adding s s' epoch secret r' grow now' ep e x h = elim (ℕ_discrete epoch e) [
    | yes eq ↦ inr (r', now', omega arith)
    | no ne ↦ inl (rw (grow, lookup-insert_ne epoch e secret s.epoch_secrets ne) h)
  ]

  -- Sealing begins no epoch a second time.
  pub Grows-Keeps :
      (s s' : DmSession F) (epoch : ℕ) (secret : Bytes) (r' : DmRatchet F)
      → HasNext s
      → Grows s s' epoch secret
      → s'.current ≡ some r'
      → r'.epoch ≡ epoch
      → Keeps s s'
  Grows-Keeps s s' epoch secret r' last (same r keep now there) now' ep = record {
    owned = λ e o. let le = Owns-le s r e now o in (r', now', omega arith);
    stored = λ e x o h. rw keep h;
    known = λ e x h. inl (rw keep h);
  }
  Grows-Keeps s s' epoch secret r' last (added grow (inl (none_yet, zero_epoch))) now' ep = record {
    owned = λ e o. absurd (cc (o.1));
    stored = λ e x o h. absurd (cc (o.1));
    known = λ e x h. lookup-adding s s' epoch secret r' grow now' ep e x h;
  }
  Grows-Keeps s s' epoch secret r' last (added grow (inr (r, now, up))) now' ep =
      let fits = last r now in
      record {
        owned = λ e o. let le = Owns-le s r e now o in (r', now', omega arith);
        stored = λ e x o h.
            let le = Owns-le s r e now o in
            rw (grow, lookup-insert_ne epoch e secret s.epoch_secrets (omega arith)) h;
        known = λ e x h. lookup-adding s s' epoch secret r' grow now' ep e x h;
      }

  -- The one secret that sealing may add is that of an epoch that the session has now begun.
  pub Grows-learns :
      (s s' : DmSession F) (epoch : ℕ) (secret : Bytes) (r' : DmRatchet F)
      → Grows s s' epoch secret
      → s'.current ≡ some r'
      → r'.epoch ≡ epoch
      → (e : ℕ) (x : Bytes) → lookup e s'.epoch_secrets ≡ some x
      → (lookup e s.epoch_secrets ≡ some x) ⊎ Owns s' e
  Grows-learns s s' epoch secret r' (same r keep now there) now' ep e x h = inl (rw keep at h)
  Grows-learns s s' epoch secret r' (added grow _) now' ep e x h = elim (ℕ_discrete epoch e) [
    | yes eq ↦ inr (r', now', omega arith)
    | no ne ↦ inl (sym (lookup-insert_ne epoch e secret s.epoch_secrets ne) ∙ (rw grow at h))
  ]

  -- A session that stores one more secret, under an epoch that it did not know.
  abbrev pub learning : DmSession F → ℕ → Bytes → DmSession F
  learning s epoch secret = record s { epoch_secrets = insert epoch secret s.epoch_secrets }

  lookup-learning :
      (s : DmSession F) (epoch : ℕ) (secret : Bytes)
      → lookup epoch s.epoch_secrets ≡ none
      → (e : ℕ) (x : Bytes) → lookup e s.epoch_secrets ≡ some x
      → lookup e (insert epoch secret s.epoch_secrets) ≡ some x
  lookup-learning s epoch secret new e x h =
      lookup-insert_ne epoch e secret s.epoch_secrets
        (λ eq. absurd (cc (sym new ∙ ap (λ k. lookup k s.epoch_secrets) eq ∙ h)))
      ∙ h

  pub learning-Keeps :
      (s : DmSession F) (epoch : ℕ) (secret : Bytes)
      → lookup epoch s.epoch_secrets ≡ none
      → Keeps s (learning s epoch secret)
  learning-Keeps s epoch secret new = record {
    owned = λ e o. o;
    stored = λ e x o h. lookup-learning s epoch secret new e x h;
    known = λ e x h. inl (lookup-learning s epoch secret new e x h);
  }

  pub learning-IsReady :
      (c : Crates) (priv : Bytes) (s : DmSession F) (epoch : ℕ) (secret : Bytes)
      → lookup epoch s.epoch_secrets ≡ none
      → IsReady c priv s
      → IsReady c priv (learning s epoch secret)
  learning-IsReady c priv s epoch secret new ready = elim (Option-cases s.current) [
    | inl e ↦ subst (ReadyIf c priv (learning s epoch secret)) (sym e) tt
    | inr (r, e) ↦
        let at : ReadyAt c priv s r = subst (ReadyIf c priv s) e ready in
        subst (ReadyIf c priv (learning s epoch secret)) (sym e) (record {
          secret_32 = at.secret_32;
          stored = lookup-learning s epoch secret new r.epoch r.epoch_secret at.stored;
          wrapped = at.wrapped;
          kam_is = at.kam_is;
          unwraps = at.unwraps;
        })
  ]

  pub lookup-learning_inv :
      (s : DmSession F) (epoch : ℕ) (secret : Bytes) (e : ℕ) (x : Bytes)
      → lookup e (insert epoch secret s.epoch_secrets) ≡ some x
      → (lookup e s.epoch_secrets ≡ some x) ⊎ ((epoch ≡ e) × (secret ≡ x))
  lookup-learning_inv s epoch secret e x h = elim (ℕ_discrete epoch e) [
    | yes eq ↦
        let at_e : lookup epoch (insert epoch secret s.epoch_secrets) ≡ some x =
          ap (λ k. lookup k (insert epoch secret s.epoch_secrets)) eq ∙ h in
        inr (eq, cc (lookup-insert_self epoch secret s.epoch_secrets))
    | no ne ↦ inl (sym (lookup-insert_ne epoch e secret s.epoch_secrets ne) ∙ h)
  ]

  -- A session that answers alike keeps the same secrets and epochs, and is as ready.
  pub Same-Keeps : (s s' : DmSession F) → Same s s' → Keeps s s'
  Same-Keeps s s' h = record {
    owned = λ e o. (o.0, sym h.same_current ∙ o.1, o.2);
    stored = λ e x o at. sym (h.same_secrets e) ∙ at;
    known = λ e x at. inl (sym (h.same_secrets e) ∙ at);
  }

  pub Same-IsReady :
      (c : Crates) (priv : Bytes) (s s' : DmSession F)
      → Same s s'
      → IsReady c priv s
      → IsReady c priv s'
  Same-IsReady c priv s s' h ready =
      subst (ReadyIf c priv s') h.same_current (moved s.current ready)
    where
      moved : (o : Option (DmRatchet F)) → ReadyIf c priv s o → ReadyIf c priv s' o
      moved none ready = tt
      moved (some r) ready = record {
        secret_32 = ready.secret_32;
        stored = sym (h.same_secrets r.epoch) ∙ ready.stored;
        wrapped = ready.wrapped;
        kam_is = sym h.same_kam ∙ ready.kam_is;
        unwraps = ready.unwraps;
      }
