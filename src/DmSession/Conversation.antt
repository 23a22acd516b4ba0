-- ===== src/DmSession/Conversation.antt =====
-- Two sessions that seal to each other and open what they receive, over a channel that loses, repeats,
-- reorders and alters frames, and that restart from their snapshots at any time.
pub mod Invariant
pub mod Opening
pub mod Slots
use sk_core.Prelude.{ℕ, ◌≡◌, List, [], ◌∷◌, length}
use sk_core.Prelude.Bytes.{Bytes, IsU64, Text}
use sk_core.Prelude.Outcome.{Outcome, ok}
use sk_core.Crypto.{Crates, Fits}
use sk_core.Json.{SerdeJson}
use sk_core.Json.Access.{JsonNumbers}
use sk_core.Kem.{HybridKeyPair, hybrid_keypair}
use sk_core.Ratchet.{Float64}
use sk_core.DmSession.{
  DmSession, DmSessionError, Draws, SealedDmFrame, open_frame, seal, session_with_bounds,
}
use sk_core.DmSession.Sending.{WellDrawn}
use sk_core.DmSession.Flow.{Arrives, HasNext}
use sk_core.DmSession.Snapshot.{Hex, restore, snapshot}
use sk_core.DmSession.Snapshot.Stored.{IsFinite}

-- What a keypair is made of.
pub record Seeds : Type 0 where
  pub x_seed : Bytes
  pub mlkem_seed : Bytes
  pub x_seed_32 : length x_seed ≡ 32

pub record World (F : Type 0) : Type 0 where
  pub alice : DmSession F
  pub bob : DmSession F
  pub from_alice : List (SealedDmFrame × Bytes)
  pub from_bob : List (SealedDmFrame × Bytes)

-- The same world with the names exchanged.
abbrev pub swap : {F : Type 0} → World F → World F
swap w = record { alice = w.bob; bob = w.alice; from_alice = w.from_bob; from_bob = w.from_alice }

-- Who takes part, and the bounds of their session.
pub record Party : Type 0 where
  pub name : Text
  pub rekey_msg_bound : ℕ
  pub rekey_age_seconds : ℕ

abbrev pub AreU64 : Party → Type 0
AreU64 p = IsU64 p.rekey_msg_bound × IsU64 p.rekey_age_seconds

-- Two sessions that have exchanged nothing.
abbrev pub start : {F : Type 0} → Party → Party → World F
start alice bob = record {
  alice = session_with_bounds bob.name alice.rekey_msg_bound alice.rekey_age_seconds;
  bob = session_with_bounds alice.name bob.rekey_msg_bound bob.rekey_age_seconds;
  from_alice = [];
  from_bob = [];
}

pub data Direction : Type 0 where
  alice_to_bob : Direction
  bob_to_alice : Direction

module _ {F : Type 0} where
  abbrev pub receiver : Direction → World F → DmSession F
  receiver alice_to_bob w = w.bob
  receiver bob_to_alice w = w.alice

  abbrev pub sent : Direction → World F → List (SealedDmFrame × Bytes)
  sent alice_to_bob w = w.from_alice
  sent bob_to_alice w = w.from_bob

abbrev pub receiver_seeds : Direction → Seeds → Seeds → Seeds
receiver_seeds alice_to_bob of_alice of_bob = of_bob
receiver_seeds bob_to_alice of_alice of_bob = of_alice

abbrev pub keypair : Crates → Seeds → HybridKeyPair
keypair c of = hybrid_keypair c of.x_seed of.mlkem_seed

module _ (c : Crates) {N F : Type 0} (fl : Float64 F) (json : SerdeJson N)
    (numbers : JsonNumbers N F) (hex : Hex) where
  -- What the session called alice may do: seal a message to the other's public key, open any frame that
  -- arrives, or be stored and restored.
  pub data Acts (mine theirs : Seeds) : World F → World F → Type 0 where
    seals :
        (w : World F) (d : Draws F) (pt : Bytes) (s : DmSession F) (f : SealedDmFrame)
        → WellDrawn d
        → IsFinite numbers d.started_at
        → Fits pt
        → HasNext w.alice
        → seal c fl w.alice d pt (keypair c theirs).public_key ≡ (s, ok f)
        → Acts mine theirs w (record w { alice = s; from_alice = (f, pt) ∷ w.from_alice })
    opens :
        (w : World F) (f : SealedDmFrame) (s : DmSession F) (o : Outcome DmSessionError Bytes)
        → IsU64 f.epoch
        → Arrives c (keypair c mine).private_key w.from_bob f
        → open_frame c w.alice f (keypair c mine).private_key ≡ (s, o)
        → Acts mine theirs w (record w { alice = s })
    restarts :
        (w : World F) (s : DmSession F)
        → restore json numbers hex (snapshot json numbers hex w.alice) ≡ ok s
        → Acts mine theirs w (record w { alice = s })

  -- Either session acts.
  pub data Step (of_alice of_bob : Seeds) : World F → World F → Type 0 where
    alice_acts : (w w' : World F) → Acts of_alice of_bob w w' → Step of_alice of_bob w w'
    bob_acts :
        (w w' : World F) → Acts of_bob of_alice (swap w) w' → Step of_alice of_bob w (swap w')

  pub data Reach (of_alice of_bob : Seeds) (w : World F) : World F → Type 0 where
    here : Reach of_alice of_bob w w
    next :
        {u v : World F}
        → Reach of_alice of_bob w u
        → Step of_alice of_bob u v
        → Reach of_alice of_bob w v
