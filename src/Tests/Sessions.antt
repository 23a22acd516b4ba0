-- ===== src/Tests/Sessions.antt =====
-- The theorems on DM sessions at concrete inputs.
use sk_core.Prelude.{ℕ, ◌≤◌, ◌≡◌, refl, ◌⊎◌, inl, some, none, [], ◌∷◌, replicate, arith, leb, ◌-◌}
use sk_core.Prelude.Bytes.{Bytes, codes}
use sk_core.Prelude.Maps.{lookup, insert, lookup-insert_self}
use sk_core.Prelude.Outcome.{ok, err}
use sk_core.Kem.{hybrid_keypair}
use sk_core.Ratchet.{Float64, DmRatchet}
use sk_core.Ratchet.Wrapping.{unwrap-wrap_dm_epoch_secret}
use sk_core.DmSession.{
  DmSession, Draws, SealedDmFrame, missing_epoch_secret, open_frame, seal, session_with_bounds,
}
use sk_core.DmSession.Sending.{IsReady, WellDrawn}
use sk_core.DmSession.Sending.Sealing.{Sent, seal_ok}
use sk_core.DmSession.Delivery.{World, Reach, here, next, sends, start, sent_frames_open}
use sk_core.DmSession.Rekeying.{seal_all, Begins, seal_all-Begins}
use sk_core.Tests.Toy.{toy, toy_laws}

abbrev pub clock : Float64 ℕ
clock = record { sub = ◌-◌; from_u64 = λ n. n; geb = λ a b. leb b a }

abbrev pub draws : Draws ℕ
draws = record {
  secret = replicate 32 1;
  x_eph = [];
  mlkem_rand = [];
  wrap_nonce = replicate 12 2;
  frame_nonce = replicate 12 3;
  checked_at = 100;
  started_at = 100;
}

pub drawn : WellDrawn draws
drawn = record { secret_32 = refl; wrap_nonce_12 = refl; frame_nonce_12 = refl }

abbrev pub hello : Bytes
hello = codes "hello"

abbrev pub alice_session : DmSession ℕ
alice_session = session_with_bounds (codes "bob") 50 604800

alice-IsReady :
    IsReady (toy []) (hybrid_keypair (toy []) (replicate 32 7) []).private_key alice_session
unfolding session_with_bounds
alice-IsReady = tt

seal_ok_example : Sent (toy []) (toy_laws []) (replicate 32 7) [] refl clock alice_session hello (
    seal
      (toy [])
      clock
      alice_session
      draws
      hello
      (hybrid_keypair (toy []) (replicate 32 7) []).public_key)
seal_ok_example =
    seal_ok (toy []) (toy_laws []) (replicate 32 7) [] refl clock alice_session draws hello drawn
      (omega arith) alice-IsReady

abbrev pub frame : SealedDmFrame
frame = record { epoch = 5; index = 2; nonce = 1 ∷ 2 ∷ []; body = 3 ∷ []; kam = some (4 ∷ []) }

abbrev first : Sent (toy []) (toy_laws []) (replicate 32 7) [] refl clock alice_session hello (
    seal
      (toy [])
      clock
      alice_session
      draws
      hello
      (hybrid_keypair (toy []) (replicate 32 7) []).public_key)
first =
    seal_ok (toy []) (toy_laws []) (replicate 32 7) [] refl clock alice_session draws hello drawn
      (omega arith) alice-IsReady

-- The world after one message.
abbrev after_one : World ℕ
after_one = record {
  sender = first.session;
  receiver = session_with_bounds (codes "alice") 50 604800;
  sent = (first.frame, hello) ∷ [];
}

after_one-Reach :
    Reach
      (toy [])
      (replicate 32 7)
      []
      clock
      (start (codes "alice") (codes "bob") 50 604800)
      after_one
unfolding session_with_bounds
after_one-Reach = next here (
    sends (start (codes "alice") (codes "bob") 50 604800) draws hello first.session first.frame
      drawn (omega arith) (λ r e. cc e) first.is)

sent_frames_open_example :
    let result =
      open_frame
        (toy [])
        after_one.receiver
        first.frame
        (hybrid_keypair (toy []) (replicate 32 7) []).private_key in
    (result.1 ≡ ok hello)
    ⊎ ((lookup first.frame.epoch after_one.receiver.epoch_secrets ≡ none)
        × (3 ≤ first.frame.index)
        × (result ≡ (after_one.receiver, err (missing_epoch_secret first.frame.epoch))))
sent_frames_open_example =
    sent_frames_open (toy []) (replicate 32 7) [] clock (toy_laws []) refl (codes "alice")
      (codes "bob") 50 604800 after_one first.frame hello after_one-Reach (inl (refl, refl))

-- A ratchet at its message bound, whose secret is wrapped for the peer, and a session that sends with it.
abbrev brief_ratchet : DmRatchet ℕ
brief_ratchet = record {
  epoch = 0;
  epoch_secret = replicate 32 1;
  message_index = 1;
  rekey_msg_bound = 1;
  rekey_age_seconds = 604800;
  epoch_started_at = 100;
}

abbrev wrapped : Bytes
wrapped =
    (unwrap-wrap_dm_epoch_secret (toy []) (toy_laws []) (replicate 32 7) [] [] [] (replicate 12 2)
      (replicate 32 1) refl refl refl).0

abbrev brief : DmSession ℕ
brief = record alice_session {
  rekey_msg_bound = 1;
  current = some brief_ratchet;
  epoch_secrets = insert 0 (replicate 32 1) [];
  current_kam = some wrapped;
}

brief-IsReady : IsReady (toy []) (hybrid_keypair (toy []) (replicate 32 7) []).private_key brief
brief-IsReady = record {
  secret_32 = refl;
  stored = lookup-insert_self 0 (replicate 32 1) [];
  wrapped = wrapped;
  kam_is = refl;
  unwraps =
      (unwrap-wrap_dm_epoch_secret (toy []) (toy_laws []) (replicate 32 7) [] [] [] (replicate 12 2)
        (replicate 32 1) refl refl refl).2;
}

seal_all-Begins_example : Begins 1 (
    seal_all
      (toy [])
      clock
      (hybrid_keypair (toy []) (replicate 32 7) []).public_key
      brief
      ((draws, hello) ∷ []))
seal_all-Begins_example =
    seal_all-Begins (toy []) (toy_laws []) (replicate 32 7) [] refl clock brief brief_ratchet
      ((draws, hello) ∷ []) refl brief-IsReady ((drawn, omega arith), tt) (omega arith)
      (omega arith) (omega arith)
