-- ===== src/Tests/Conversations.antt =====
-- The theorems on conversations at concrete inputs.
use sk_core.Prelude.{
  ℕ, ◌≤◌, ◌≡◌, refl, sym, ◌⊎◌, inl, inr, some, none, [], ◌∷◌, ◌-◌, length, replicate, arith, drop,
  Bool-cases, ◌==◌,
}
use mathlib.Core.Path.{subst}
use sk_core.Prelude.Bytes.{Bytes, codes}
use sk_core.Prelude.Texts.{text_eq, text_eq→eq}
use sk_core.Prelude.Maps.{lookup-nil, lookup, lookup-insert_self}
use sk_core.Prelude.Outcome.{ok, err}
use sk_core.Crypto.Calls.{decrypt, hkdf32}
use sk_core.Ratchet.{wrap_dm_epoch_secret, unwrap_dm_epoch_secret, derive_dm_message_key}
use sk_core.DmSession.{
  SealedDmFrame, DmSession, DmSessionError, Draws, missing_epoch_secret, frame_aad, open_failed,
  open_frame, seal, session_with_bounds,
}
use sk_core.DmSession.Sending.{WellDrawn, Begun, seal_Begun, begin_at-none}
use sk_core.DmSession.Flow.{Owns}
use sk_core.DmSession.Flow.Frames.{Shut, nonce_12}
use sk_core.DmSession.Forged.{forged_kam_shuts}
use sk_core.Ratchet.Wrapping.{unwrap-wrap_dm_epoch_secret}
use sk_core.DmSession.Conversation.{
  Party, World, Seeds, start, swap, keypair, Reach, here, next, alice_acts, bob_acts, seals,
  alice_to_bob, bob_to_alice,
}
use sk_core.DmSession.Conversation.Opening.{conversation_opens, own_epoch_shuts}
use sk_core.Tests.Toy.{keyed, keyed_laws}
use sk_core.Tests.ToyJson.{flat_json}
use sk_core.Tests.Sessions.{clock, draws, drawn, hello}
use sk_core.Tests.Snapshots.{numbers, numbers_laws, plain_hex, plain_hex_laws}

abbrev pub seeds : Seeds
seeds = record { x_seed = replicate 32 7; mlkem_seed = []; x_seed_32 = refl }

-- Bob rekeys sooner than Alice.
abbrev pub alice : Party
alice = record { name = codes "alice"; rekey_msg_bound = 50; rekey_age_seconds = 604800 }

abbrev pub bob : Party
bob = record { name = codes "bob"; rekey_msg_bound = 20; rekey_age_seconds = 86400 }

abbrev pub at_start : World ℕ
at_start = start alice bob

-- Bob draws another secret than Alice.
abbrev other_draws : Draws ℕ
other_draws = record draws { secret = replicate 32 2 }

other_drawn : WellDrawn other_draws
other_drawn = record { secret_32 = refl; wrap_nonce_12 = refl; frame_nonce_12 = refl }

-- The first message of each, whatever the other has done.
module _ (s : DmSession ℕ) (none_yet : s.current ≡ none) where
  abbrev pub first :
      Begun keyed keyed_laws seeds.x_seed seeds.mlkem_seed refl clock s draws 0 hello
        (seal keyed clock s draws hello (keypair keyed seeds).public_key)
  first =
      seal_Begun keyed keyed_laws seeds.x_seed seeds.mlkem_seed refl clock s draws 0 hello drawn
        (omega arith)
        (begin_at-none keyed keyed_laws seeds.x_seed seeds.mlkem_seed refl clock s 100 none_yet)

  abbrev other_first :
      Begun keyed keyed_laws seeds.x_seed seeds.mlkem_seed refl clock s other_draws 0 hello
        (seal keyed clock s other_draws hello (keypair keyed seeds).public_key)
  other_first =
      seal_Begun keyed keyed_laws seeds.x_seed seeds.mlkem_seed refl clock s other_draws 0 hello
        other_drawn (omega arith)
        (begin_at-none keyed keyed_laws seeds.x_seed seeds.mlkem_seed refl clock s 100 none_yet)

pub alice_none : at_start.alice.current ≡ none
unfolding session_with_bounds
alice_none = refl

bob_none : at_start.bob.current ≡ none
unfolding session_with_bounds
bob_none = refl

abbrev pub Reaches : World ℕ → World ℕ → Type 0
Reaches = Reach keyed clock flat_json numbers plain_hex seeds seeds

-- Bob seals a message, and then Alice seals one.
abbrev bob_began : World ℕ
bob_began = record at_start {
  bob = (other_first at_start.bob bob_none).session;
  from_bob = ((other_first at_start.bob bob_none).frame, hello) ∷ [];
}

bob_began-Reach : Reaches at_start bob_began
bob_began-Reach = next here (
    bob_acts at_start (swap bob_began) (
      seals (swap at_start) other_draws hello (other_first at_start.bob bob_none).session
        (other_first at_start.bob bob_none).frame other_drawn (100, refl) (omega arith)
        (λ r e. absurd (cc (bob_none))) (other_first at_start.bob bob_none).is))

abbrev both_began : World ℕ
both_began = record bob_began {
  alice = (first at_start.alice alice_none).session;
  from_alice = ((first at_start.alice alice_none).frame, hello) ∷ [];
}

both_began-Reach : Reaches bob_began both_began
both_began-Reach = next here (
    alice_acts bob_began both_began (
      seals bob_began draws hello (first at_start.alice alice_none).session
        (first at_start.alice alice_none).frame drawn (100, refl) (omega arith)
        (λ r e. absurd (cc (alice_none))) (first at_start.alice alice_none).is))

conversation_opens_example :
    let f = (other_first at_start.bob bob_none).frame in
    let result = open_frame keyed bob_began.alice f (keypair keyed seeds).private_key in
    ((result.1 ≡ ok hello)
      ⊎ ((lookup f.epoch bob_began.alice.epoch_secrets ≡ none)
          × (3 ≤ f.index)
          × (result ≡ (bob_began.alice, err (missing_epoch_secret f.epoch)))))
    ⊎ (Owns bob_began.alice f.epoch × (result.0 ≡ bob_began.alice))
conversation_opens_example =
    conversation_opens keyed keyed_laws clock flat_json numbers plain_hex numbers_laws
      plain_hex_laws seeds seeds bob_to_alice alice bob bob_began
      (other_first at_start.bob bob_none).frame hello (omega arith, omega arith)
      (omega arith, omega arith) bob_began-Reach (inl (refl, refl))

-- A ciphertext whose tag tells the key of ones is refused under the key of twos.
one_key :
    (nonce aad body msg : Bytes)
    → decrypt keyed {E = DmSessionError} open_failed (replicate 32 1) nonce aad body ≡ ok msg
    → keyed.aes_gcm_decrypt (replicate 32 2) nonce aad body ≡ none
unfolding decrypt text_eq
one_key nonce aad body msg e = elim (Bool-cases (length nonce == 12)) [
  | inr odd ↦ cc (rw odd at e)
  | inl good ↦ elim (Bool-cases (text_eq (drop (length body - 16) body) (replicate 16 1))) [
    | inr other ↦ cc (rw (good, other) at e)
    | inl tag ↦ rw (text_eq→eq (drop (length body - 16) body) (replicate 16 1) tag)
  ]
]

-- The key that Bob's secret gives Alice's first frame does not open it.
first-Shut : Shut keyed (replicate 32 2) (first at_start.alice alice_none).frame
unfolding derive_dm_message_key hkdf32
first-Shut key e =
    let a = first at_start.alice alice_none in
    let twos : replicate 32 2 ≡ key = cc in
    let ones : replicate 32 1 ≡ a.carries.key = cc (a.carries.derived) in
    subst
      (λ k.
        keyed.aes_gcm_decrypt k a.frame.nonce (frame_aad a.frame.epoch a.frame.index) a.frame.body
        ≡ none)
      twos
      (one_key a.frame.nonce (frame_aad a.frame.epoch a.frame.index) a.frame.body hello (
        subst
          (λ k.
            decrypt keyed {E = DmSessionError} open_failed k a.frame.nonce
              (frame_aad a.frame.epoch a.frame.index) a.frame.body
            ≡ ok hello)
          (sym ones) a.carries.opens))

-- Bob has begun the epoch of Alice's first frame, with the secret that he drew.
bob-Owns : Owns bob_began.bob (first at_start.alice alice_none).frame.epoch
bob-Owns =
    let a = first at_start.alice alice_none in
    let b = other_first at_start.bob bob_none in
    (b.ratchet, b.now, omega (arith, a.epoch_is, b.ratchet_is))

bob_stored :
    lookup (first at_start.alice alice_none).frame.epoch bob_began.bob.epoch_secrets
    ≡ some (replicate 32 2)
bob_stored =
    let a = first at_start.alice alice_none in
    let b = other_first at_start.bob bob_none in
    rw (a.epoch_is, b.secrets) (lookup-insert_self 0 (replicate 32 2) at_start.bob.epoch_secrets)

own_epoch_shuts_example :
    open_frame keyed both_began.bob
      (first at_start.alice alice_none).frame
      (keypair keyed seeds).private_key
    ≡ (both_began.bob, err open_failed)
own_epoch_shuts_example =
    own_epoch_shuts keyed keyed_laws clock flat_json numbers plain_hex numbers_laws plain_hex_laws
      seeds seeds alice_to_bob alice bob bob_began both_began
      (first at_start.alice alice_none).frame hello (replicate 32 2) (omega arith, omega arith)
      (omega arith, omega arith) bob_began-Reach bob-Owns bob_stored both_began-Reach
      (inl (refl, refl)) first-Shut

-- Someone who knows Bob's public key wraps a secret for the epoch of Alice's first frame.
abbrev forged_kam :
    (k : Bytes) × (wrap_dm_epoch_secret keyed [] []
        (replicate 12 2)
        (replicate 32 2)
        (keypair keyed seeds).public_key
      ≡ ok k)
    × (unwrap_dm_epoch_secret keyed k (keypair keyed seeds).private_key ≡ ok (replicate 32 2))
    × (length k ≡ 1180)
forged_kam =
    unwrap-wrap_dm_epoch_secret keyed keyed_laws seeds.x_seed seeds.mlkem_seed [] []
      (replicate 12 2) (replicate 32 2) refl refl refl

abbrev forged : SealedDmFrame
forged = record (first at_start.alice alice_none).frame { body = []; kam = some forged_kam.0 }

bob_unknowing : lookup forged.epoch at_start.bob.epoch_secrets ≡ none
unfolding session_with_bounds
bob_unknowing = lookup-nil forged.epoch

forged_kam_shuts_example :
    let priv = (keypair keyed seeds).private_key in
    let s' = (open_frame keyed at_start.bob forged priv).0 in
    open_frame keyed s' (first at_start.alice alice_none).frame priv ≡ (s', err open_failed)
forged_kam_shuts_example =
    forged_kam_shuts keyed keyed_laws seeds.x_seed seeds.mlkem_seed refl at_start.bob [] []
      (replicate 12 2) (replicate 32 2) forged_kam.0 forged (first at_start.alice alice_none).frame
      refl refl bob_unknowing refl forged_kam.1 refl
      (nonce_12 keyed (keypair keyed seeds).private_key keyed_laws
        (first at_start.alice alice_none).frame (replicate 32 1) hello
        (first at_start.alice alice_none).carries)
      first-Shut
