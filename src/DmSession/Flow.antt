-- ===== src/DmSession/Flow.antt =====
-- One direction of a conversation: a session that seals, a session that opens, and the frames between.
pub mod Moves
pub mod Steps
pub mod Frames
pub mod Slots
use sk_core.Prelude.{ℕ, ◌+◌, ◌^◌, ◌≤◌, ◌<◌, ◌≡◌, ◌⊎◌, inl, inr, some, none, List, [], ◌∷◌}
use sk_core.Prelude.Bytes.{Bytes}
use sk_core.Prelude.Maps.{lookup}
use sk_core.Crypto.{Crates}
use sk_core.Prelude.Outcome.{err}
use sk_core.Ratchet.{DmRatchet, RatchetError, unwrap_dm_epoch_secret}
use sk_core.DmSession.{DmSession, SealedDmFrame}
use sk_core.DmSession.Frame.{FrameOf}
use sk_core.DmSession.Sending.{IsReady}

-- A frame that was sent, with the plaintext that was sealed in it.
abbrev pub WasSent : SealedDmFrame → Bytes → List (SealedDmFrame × Bytes) → Type 0
WasSent f pt [] = ⊥
WasSent f pt ((g, qt) ∷ rest) = ((f ≡ g) × (pt ≡ qt)) ⊎ WasSent f pt rest

-- What may arrive at the owner of the private key while these frames are sent: a frame with any index,
-- nonce and body, that has no KAM, or one that does not unwrap, or that of a sent frame of its epoch.
pub data Arrives (c : Crates) (priv : Bytes) (log : List (SealedDmFrame × Bytes))
    (g : SealedDmFrame) : Type 0 where
  bare : g.kam ≡ none → Arrives c priv log g
  spoilt :
      (k : Bytes) (e : RatchetError)
      → g.kam ≡ some k
      → unwrap_dm_epoch_secret c k priv ≡ err e
      → Arrives c priv log g
  genuine :
      (f : SealedDmFrame) (pt : Bytes)
      → WasSent f pt log
      → g.epoch ≡ f.epoch
      → g.kam ≡ f.kam
      → Arrives c priv log g

-- The next epoch number is still a `u64`.
abbrev pub HasNext : {F : Type 0} → DmSession F → Type 0
HasNext {F} s = (r : DmRatchet F) → s.current ≡ some r → r.epoch + 1 < 2 ^ 64

-- The session has begun this epoch itself: its epochs run up to the current one.
abbrev pub Owns : {F : Type 0} → DmSession F → ℕ → Type 0
Owns {F} s epoch = (r : DmRatchet F) × (s.current ≡ some r) × (epoch ≤ r.epoch)

-- What a session has begun it has begun for good, and its secrets of these epochs stay. Any other secret
-- stays until the session begins the epoch.
pub record Keeps {F : Type 0} (s s' : DmSession F) : Type 0 where
  pub owned : (epoch : ℕ) → Owns s epoch → Owns s' epoch
  pub stored :
      (epoch : ℕ) (secret : Bytes)
      → Owns s epoch
      → lookup epoch s.epoch_secrets ≡ some secret
      → lookup epoch s'.epoch_secrets ≡ some secret
  pub known :
      (epoch : ℕ) (secret : Bytes)
      → lookup epoch s.epoch_secrets ≡ some secret
      → (lookup epoch s'.epoch_secrets ≡ some secret) ⊎ Owns s' epoch

pub Keeps-refl : {F : Type 0} (s : DmSession F) → Keeps s s
Keeps-refl s = record { owned = λ e o. o; stored = λ e x o h. h; known = λ e x h. inl h }

pub Keeps-trans : {F : Type 0} {s t u : DmSession F} → Keeps s t → Keeps t u → Keeps s u
Keeps-trans h k = record {
  owned = λ e o. k.owned e (h.owned e o);
  stored = λ e x o at. k.stored e x (h.owned e o) (h.stored e x o at);
  known = λ e x at. elim (h.known e x at) [
    | inl kept ↦ k.known e x kept
    | inr own ↦ inr (k.owned e own)
  ];
}

module _ (c : Crates) (priv : Bytes) {F : Type 0} where
  -- A frame carries its plaintext under the secret that its sender keeps for its epoch.
  pub record Logged (s : DmSession F) (f : SealedDmFrame) (pt : Bytes) : Type 0 where
    pub secret : Bytes
    pub stored : lookup f.epoch s.epoch_secrets ≡ some secret
    pub owned : Owns s f.epoch
    pub carries : FrameOf c priv secret pt f
    pub kam_early : f.index < 3 → (k : Bytes) × (f.kam ≡ some k)

  -- The sender is ready, every frame of the log is its own, and the receiver knows no secret but those of
  -- epochs that it has begun itself and the sender's.
  pub record Flow (s r : DmSession F) (log : List (SealedDmFrame × Bytes)) : Type 0 where
    pub ready : IsReady c priv s
    pub logged : (f : SealedDmFrame) (pt : Bytes) → WasSent f pt log → Logged s f pt
    pub agrees :
        (epoch : ℕ) (secret : Bytes)
        → lookup epoch r.epoch_secrets ≡ some secret
        → Owns r epoch ⊎ (Owns s epoch × (lookup epoch s.epoch_secrets ≡ some secret))

  Logged-Keeps :
      (s s' : DmSession F) (f : SealedDmFrame) (pt : Bytes)
      → Keeps s s'
      → Logged s f pt
      → Logged s' f pt
  Logged-Keeps s s' f pt keep l = record {
    secret = l.secret;
    stored = keep.stored f.epoch l.secret l.owned l.stored;
    owned = keep.owned f.epoch l.owned;
    carries = l.carries;
    kam_early = l.kam_early;
  }

  -- The sender may change in any way that keeps what it has begun.
  pub Flow-sender :
      (s s' r : DmSession F) (log : List (SealedDmFrame × Bytes))
      → Keeps s s'
      → IsReady c priv s'
      → Flow s r log
      → Flow s' r log
  Flow-sender s s' r log keep ready v = record {
    ready = ready;
    logged = λ f pt was. Logged-Keeps s s' f pt keep (v.logged f pt was);
    agrees = λ e x h. elim (v.agrees e x h) [
      | inl own ↦ inl own
      | inr (o, at) ↦ inr (keep.owned e o, keep.stored e x o at)
    ];
  }

  -- The frame that the sender has just sealed joins the log.
  pub Flow-logs :
      (s r : DmSession F) (log : List (SealedDmFrame × Bytes)) (f : SealedDmFrame) (pt : Bytes)
      → Logged s f pt
      → Flow s r log
      → Flow s r ((f, pt) ∷ log)
  Flow-logs s r log f pt l v = record {
    ready = v.ready;
    logged = λ g qt was. elim was [
      | inl (is_f, is_pt) ↦ rw (is_f, is_pt) l
      | inr old ↦ v.logged g qt old
    ];
    agrees = v.agrees;
  }

  -- The receiver may learn secrets of epochs that it begins, and those of the sender.
  pub Flow-receiver :
      (s r r' : DmSession F) (log : List (SealedDmFrame × Bytes))
      → ((e : ℕ) → Owns r e → Owns r' e)
      → ((e : ℕ) (x : Bytes)
          → lookup e r'.epoch_secrets ≡ some x
          → (lookup e r.epoch_secrets ≡ some x)
            ⊎ (Owns r' e ⊎ (Owns s e × (lookup e s.epoch_secrets ≡ some x))))
      → Flow s r log
      → Flow s r' log
  Flow-receiver s r r' log owned learns v = record {
    ready = v.ready;
    logged = v.logged;
    agrees = λ e x h. elim (learns e x h) [
      | inr new ↦ new
      | inl old ↦ elim (v.agrees e x old) [ inl own ↦ inl (owned e own) | inr theirs ↦ inr theirs ]
    ];
  }
