-- ===== src/DmSession/Flow/Steps.antt =====
-- How `seal`, `open` and a restart keep both directions of a conversation as they should be.
use sk_core.Prelude.{
  ◌≡◌, sym, ap, ◌∙◌, ◌⊎◌, inl, inr, some, none, List, ◌∷◌, length, arith, Option-cases,
}
use mathlib.Core.Path.{subst}
use sk_core.Prelude.Bytes.{Bytes}
use sk_core.Prelude.Maps.{lookup}
use sk_core.Prelude.Outcome.{Outcome}
use sk_core.Crypto.{Crates, Laws}
use sk_core.Kem.{hybrid_keypair}
use sk_core.Ratchet.{Float64}
use sk_core.DmSession.{DmSession, DmSessionError, SealedDmFrame, open_frame}
use sk_core.DmSession.Sending.Sealing.{Sent}
use sk_core.DmSession.Frame.{KamOf}
use sk_core.DmSession.Receiving.{open_known, open_unknown, open_refused, open_fresh}
use sk_core.DmSession.Snapshot.RoundTrip.{Same}
use sk_core.DmSession.Flow.{
  Owns, Keeps, Keeps-refl, HasNext, Arrives, bare, spoilt, genuine, Flow, Flow-receiver,
  Flow-sender, Flow-logs,
}
use sk_core.DmSession.Flow.Moves.{
  Grows-Keeps, Grows-learns, learning, learning-Keeps, learning-IsReady, lookup-learning_inv,
  Same-Keeps, Same-IsReady,
}

module _ (c : Crates) (priv : Bytes) {F : Type 0} where
  -- Opening what arrives leaves the session as it is, or stores the sender's secret under an epoch that
  -- was unknown.
  pub open_arrived :
      (s r : DmSession F) (log : List (SealedDmFrame × Bytes)) (g : SealedDmFrame)
      → Flow c priv s r log
      → Arrives c priv log g
      → ((open_frame c r g priv).0 ≡ r)
        ⊎ ((secret : Bytes) × (lookup g.epoch r.epoch_secrets ≡ none)
            × Owns s g.epoch
            × (lookup g.epoch s.epoch_secrets ≡ some secret)
            × ((open_frame c r g priv).0 ≡ learning r g.epoch secret))
  open_arrived s r log g v arrives = elim (Option-cases (lookup g.epoch r.epoch_secrets)) [
    | inr (x, at) ↦ inl (ap (λ q. q.0) (open_known c priv r g x at))
    | inl unknown ↦ arrived unknown arrives
  ]
    where
      arrived :
          lookup g.epoch r.epoch_secrets ≡ none
          → Arrives c priv log g
          → ((open_frame c r g priv).0 ≡ r)
            ⊎ ((secret : Bytes) × (lookup g.epoch r.epoch_secrets ≡ none)
                × Owns s g.epoch
                × (lookup g.epoch s.epoch_secrets ≡ some secret)
                × ((open_frame c r g priv).0 ≡ learning r g.epoch secret))
      arrived unknown (bare no_kam) = inl (ap (λ q. q.0) (open_unknown c priv r g unknown no_kam))
      arrived unknown (spoilt k e is u) =
          inl (ap (λ q. q.0) (open_refused c priv r g k e unknown is u))
      arrived unknown (genuine f pt was of_epoch of_kam) =
          let l = v.logged f pt was in
          elim (Option-cases f.kam) [
            | inl no_kam ↦ inl (ap (λ q. q.0) (open_unknown c priv r g unknown (of_kam ∙ no_kam)))
            | inr (k, is) ↦ inr (
              l.secret,
              unknown,
              subst (Owns s) (sym of_epoch) l.owned,
              ap (λ e. lookup e s.epoch_secrets) of_epoch ∙ l.stored,
              ap (λ q. q.0)
                  (open_fresh c priv r g k l.secret unknown (of_kam ∙ is)
                    (subst (KamOf c priv l.secret) is l.carries.kam_of)),
            )
          ]

  -- So the direction in which the frame went stays as it should be.
  pub Flow-opens :
      (s r : DmSession F) (log : List (SealedDmFrame × Bytes)) (g : SealedDmFrame)
      → Arrives c priv log g
      → Flow c priv s r log
      → Flow c priv s (open_frame c r g priv).0 log
  Flow-opens s r log g arrives v = elim (open_arrived s r log g v arrives) [
    | inl unchanged ↦ rw unchanged v
    | inr (secret, unknown, owned, stored, is) ↦ rw is (
        Flow-receiver c priv s r (learning r g.epoch secret) log (λ e o. o)
          (λ e x h. elim (lookup-learning_inv r g.epoch secret e x h) [
            | inl old ↦ inl old
            | inr (eq, is_x) ↦ inr (
                inr (
                  subst (Owns s) eq owned,
                  subst (λ y. lookup e s.epoch_secrets ≡ some y) is_x
                      (subst (λ k. lookup k s.epoch_secrets ≡ some secret) eq stored),
                ))
          ])
          v)
  ]

  -- So does the other direction, in which the session that opens is the sender.
  pub Flow-opening :
      (theirs : Bytes) (s r q : DmSession F) (log sent : List (SealedDmFrame × Bytes))
      (g : SealedDmFrame)
      → Arrives c priv log g
      → Flow c priv s r log
      → Flow c theirs r q sent
      → Flow c theirs (open_frame c r g priv).0 q sent
  Flow-opening theirs s r q log sent g arrives v u = elim (open_arrived s r log g v arrives) [
    | inl unchanged ↦ rw unchanged u
    | inr (secret, unknown, _, _, is) ↦ rw is (
        Flow-sender c theirs r (learning r g.epoch secret) q sent
          (learning-Keeps r g.epoch secret unknown)
          (learning-IsReady c theirs r g.epoch secret unknown u.ready) u)
  ]

  -- And the session that opens keeps what it has begun.
  pub open-Keeps :
      (s r : DmSession F) (log : List (SealedDmFrame × Bytes)) (g : SealedDmFrame)
      → Arrives c priv log g
      → Flow c priv s r log
      → Keeps r (open_frame c r g priv).0
  open-Keeps s r log g arrives v = elim (open_arrived s r log g v arrives) [
    | inl unchanged ↦ rw unchanged (Keeps-refl r)
    | inr (secret, unknown, _, _, is) ↦ rw is (learning-Keeps r g.epoch secret unknown)
  ]

module _ (c : Crates) (laws : Laws c) (x_seed mlkem_seed : Bytes) (seed_32 : length x_seed ≡ 32)
    {F : Type 0} (fl : Float64 F) where
  module _ (s : DmSession F) (pt : Bytes)
      {result : DmSession F × Outcome DmSessionError SealedDmFrame} (last : HasNext s)
      (t : Sent c laws x_seed mlkem_seed seed_32 fl s pt result) where
    pub Sent-Keeps : Keeps s t.session
    Sent-Keeps = Grows-Keeps s t.session t.frame.epoch t.secret t.at.0 last t.grows t.at.1 t.at.2

    -- Sealing keeps the direction in which the frame goes.
    pub Flow-seals :
        (r : DmSession F) (log : List (SealedDmFrame × Bytes))
        → Flow c (hybrid_keypair c x_seed mlkem_seed).private_key s r log
        → Flow c (hybrid_keypair c x_seed mlkem_seed).private_key t.session r ((t.frame, pt) ∷ log)
    Flow-seals r log v =
        Flow-logs c _ t.session r log t.frame pt
          (record {
            secret = t.secret;
            stored = t.stored;
            owned = (t.at.0, t.at.1, omega (arith, t.at.2));
            carries = t.carries;
            kam_early = t.kam_early;
          })
          (Flow-sender c _ s t.session r log Sent-Keeps t.ready v)

    -- And the other direction, in which the session that seals is the receiver.
    pub Flow-sealing :
        (priv : Bytes) (q : DmSession F) (log : List (SealedDmFrame × Bytes))
        → Flow c priv q s log
        → Flow c priv q t.session log
    Flow-sealing priv q log v =
        Flow-receiver c priv q s t.session log Sent-Keeps.owned
          (λ e x h.
            elim (Grows-learns s t.session t.frame.epoch t.secret t.at.0 t.grows t.at.1 t.at.2 e x
              h) [ inl old ↦ inl old | inr own ↦ inr (inl own) ])
          v

module _ (c : Crates) (priv : Bytes) {F : Type 0} where
  -- A restart of either end changes nothing that the other end could see.
  pub Flow-sender_restarts :
      (s s' r : DmSession F) (log : List (SealedDmFrame × Bytes))
      → Same s s'
      → Flow c priv s r log
      → Flow c priv s' r log
  Flow-sender_restarts s s' r log h v =
      Flow-sender c priv s s' r log (Same-Keeps s s' h) (Same-IsReady c priv s s' h v.ready) v

  pub Flow-receiver_restarts :
      (s r r' : DmSession F) (log : List (SealedDmFrame × Bytes))
      → Same r r'
      → Flow c priv s r log
      → Flow c priv s r' log
  Flow-receiver_restarts s r r' log h v =
      Flow-receiver c priv s r r' log (Same-Keeps r r' h).owned
        (λ e x at. inl (h.same_secrets e ∙ at)) v
