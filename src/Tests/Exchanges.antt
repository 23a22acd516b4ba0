-- ===== src/Tests/Exchanges.antt =====
-- The theorems on longer exchanges of two sessions at concrete inputs.
use sk_core.Prelude.{
  ℕ, ◌≡◌, refl, sym, ap, ◌∙◌, ◌⊎◌, inl, inr, some, none, [], ◌∷◌, arith, some_injective,
}
use sk_core.Prelude.Bytes.{Bytes}
use sk_core.Prelude.Maps.{lookup, lookup-nil, lookup-insert_self}
use sk_core.Prelude.Outcome.{Outcome, ok}
use sk_core.Ratchet.{DmRatchet}
use sk_core.DmSession.{
  DmSession, DmSessionError, SealedDmFrame, open_frame, seal, session_with_bounds,
}
use sk_core.DmSession.Receiving.{Delivered, known, fresh, missing, open_Delivered}
use sk_core.DmSession.Sending.Sealing.{Sent, seal_ok, same, added}
use sk_core.DmSession.Flow.Slots.{DistinctSlots}
use sk_core.DmSession.Conversation.Slots.{slots_never_repeat}
use sk_core.DmSession.Sending.{IsReady}
use sk_core.DmSession.Flow.{genuine, Owns, HasNext}
use sk_core.DmSession.Conversation.{
  World, swap, keypair, here, next, alice_acts, bob_acts, seals, opens, alice_to_bob,
}
use sk_core.DmSession.Conversation.Opening.{known_epoch_opens}
use sk_core.Tests.Toy.{keyed, keyed_laws}
use sk_core.Tests.ToyJson.{flat_json}
use sk_core.Tests.Sessions.{clock, draws, drawn, hello}
use sk_core.Tests.Snapshots.{numbers, numbers_laws, plain_hex, plain_hex_laws}
use sk_core.Tests.Conversations.{alice, bob, seeds, at_start, alice_none, first, Reaches}

start-IsReady : IsReady keyed (keypair keyed seeds).private_key at_start.alice
unfolding session_with_bounds
start-IsReady = tt

-- Alice seals two messages.
abbrev sealed_once :
    Sent keyed keyed_laws seeds.x_seed seeds.mlkem_seed refl clock at_start.alice hello
      (seal keyed clock at_start.alice draws hello (keypair keyed seeds).public_key)
sealed_once =
    seal_ok keyed keyed_laws seeds.x_seed seeds.mlkem_seed refl clock at_start.alice draws hello
      drawn (omega arith) start-IsReady

abbrev sealed_twice :
    Sent keyed keyed_laws seeds.x_seed seeds.mlkem_seed refl clock sealed_once.session hello
      (seal keyed clock sealed_once.session draws hello (keypair keyed seeds).public_key)
sealed_twice =
    seal_ok keyed keyed_laws seeds.x_seed seeds.mlkem_seed refl clock sealed_once.session draws
      hello drawn (omega arith) sealed_once.ready

once_epoch : sealed_once.frame.epoch ≡ 0
once_epoch = elim sealed_once.grows [
  | same r _ now _ ↦ absurd (cc (alice_none))
  | added _ why ↦ elim why [
    | inl (_, zero_epoch) ↦ zero_epoch
    | inr (r, now, _) ↦ absurd (cc (alice_none))
  ]
]

once_HasNext : HasNext sealed_once.session
once_HasNext r e =
    let (r', now, at) = sealed_once.at in
    omega (arith, ap DmRatchet.epoch (some_injective (sym now ∙ e)), once_epoch)

abbrev twice : World ℕ
twice = record at_start {
  alice = sealed_twice.session;
  from_alice = (sealed_twice.frame, hello) ∷ (sealed_once.frame, hello) ∷ [];
}

abbrev once : World ℕ
once = record at_start { alice = sealed_once.session; from_alice = (sealed_once.frame, hello) ∷ [] }

twice-Reach : Reaches at_start twice
twice-Reach =
    next
      (next here (
        alice_acts at_start once (
          seals at_start draws hello sealed_once.session sealed_once.frame drawn (100, refl)
            (omega arith) (λ r e. absurd (cc (alice_none))) sealed_once.is)))
      (alice_acts once twice (
        seals once draws hello sealed_twice.session sealed_twice.frame drawn (100, refl)
          (omega arith) once_HasNext sealed_twice.is))

slots_never_repeat_example :
    DistinctSlots ((sealed_twice.frame, hello) ∷ (sealed_once.frame, hello) ∷ [])
slots_never_repeat_example =
    slots_never_repeat keyed keyed_laws clock flat_json numbers plain_hex numbers_laws
      plain_hex_laws seeds seeds alice_to_bob alice bob twice (omega arith, omega arith)
      (omega arith, omega arith) twice-Reach

-- Bob opens the first of them, and Alice seals the second afterwards.
abbrev told : World ℕ
told = record once {
  bob = (open_frame keyed once.bob sealed_once.frame (keypair keyed seeds).private_key).0;
}

abbrev sealed_on : World ℕ
sealed_on = record told {
  alice = sealed_twice.session;
  from_alice = (sealed_twice.frame, hello) ∷ (sealed_once.frame, hello) ∷ [];
}

-- Then the first frame arrives once more, with another body.
abbrev altered : SealedDmFrame
altered = record sealed_once.frame { body = [] }

abbrev moved_on : World ℕ
moved_on = record sealed_on {
  bob = (open_frame keyed sealed_on.bob altered (keypair keyed seeds).private_key).0;
}

told-Reach : Reaches at_start told
told-Reach =
    next
      (next here (
        alice_acts at_start once (
          seals at_start draws hello sealed_once.session sealed_once.frame drawn (100, refl)
            (omega arith) (λ r e. absurd (cc (alice_none))) sealed_once.is)))
      (bob_acts once (swap told) (
        opens (swap once) sealed_once.frame told.bob
          (open_frame keyed once.bob sealed_once.frame (keypair keyed seeds).private_key).1
          (omega (arith, once_epoch)) (genuine sealed_once.frame hello (inl (refl, refl)) refl refl)
          refl))

moved_on-Reach : Reaches told moved_on
moved_on-Reach =
    next
      (next here (
        alice_acts told sealed_on (
          seals told draws hello sealed_twice.session sealed_twice.frame drawn (100, refl)
            (omega arith) once_HasNext sealed_twice.is)))
      (bob_acts sealed_on (swap moved_on) (
        opens (swap sealed_on) altered moved_on.bob
          (open_frame keyed sealed_on.bob altered (keypair keyed seeds).private_key).1
          (omega (arith, once_epoch))
          (genuine sealed_once.frame hello (inr (inl (refl, refl))) refl refl) refl))

bob_empty : lookup sealed_once.frame.epoch at_start.bob.epoch_secrets ≡ none
unfolding session_with_bounds
bob_empty = lookup-nil sealed_once.frame.epoch

-- The first frame carries its KAM.
once_kam : (k : Bytes) × (sealed_once.frame.kam ≡ some k)
once_kam =
    let a = first at_start.alice alice_none in
    let one : sealed_once.frame ≡ a.frame = cc (sealed_once.is, a.is) in
    sealed_once.kam_early (omega (arith, ap SealedDmFrame.index one, a.index_is))

told_stored : lookup sealed_once.frame.epoch told.bob.epoch_secrets ≡ some sealed_once.secret
told_stored = stored _ (
    open_Delivered keyed (keypair keyed seeds).private_key at_start.bob sealed_once.frame
      sealed_once.secret hello sealed_once.carries (inl bob_empty))
  where
    stored :
        (result : DmSession ℕ × Outcome DmSessionError Bytes)
        → Delivered keyed
            (keypair keyed seeds).private_key
            at_start.bob
            sealed_once.frame
            sealed_once.secret
            hello
            result
        → lookup sealed_once.frame.epoch result.0.epoch_secrets ≡ some sealed_once.secret
    stored result (known at) = at
    stored result (fresh _ _) =
        lookup-insert_self sealed_once.frame.epoch sealed_once.secret at_start.bob.epoch_secrets
    stored result (missing _ bare) = absurd (cc (sym bare ∙ once_kam.1))

known_epoch_opens_example :
    let result =
      open_frame keyed moved_on.bob sealed_once.frame (keypair keyed seeds).private_key in
    (result.1 ≡ ok hello) ⊎ Owns moved_on.bob sealed_once.frame.epoch
known_epoch_opens_example =
    known_epoch_opens keyed keyed_laws clock flat_json numbers plain_hex numbers_laws plain_hex_laws
      seeds seeds alice_to_bob alice bob told moved_on sealed_once.frame hello sealed_once.secret
      (omega arith, omega arith) (omega arith, omega arith) told-Reach told_stored moved_on-Reach
      (inr (inl (refl, refl)))
