-- ===== src/Tests/Snapshots.antt =====
-- The theorems on the snapshots of a DM session at concrete inputs.
use sk_core.Prelude.{
  ℕ, ◌^◌, ◌≡◌, refl, sym, some, none, [], ◌∷◌, List, replicate, ltb, if◌then◌else◌, arith,
}
use sk_core.Prelude.Bytes.{codes}
use sk_core.Prelude.Outcome.{ok}
use sk_core.Kem.{hybrid_keypair}
use sk_core.Json.Access.{JsonNumbers, JsonNumbersLaws}
use sk_core.DmSession.{DmSession}
use sk_core.DmSession.Snapshot.{Hex, HexLaws, restore, snapshot}
use sk_core.DmSession.Snapshot.Stored.{IsStored, session_with_bounds-IsStored}
use sk_core.DmSession.Snapshot.RoundTrip.{Same, restore-snapshot}
use sk_core.DmSession.Snapshot.Answers.{RestoreAnswer, restore_answer}
use sk_core.Json.{Value, number, string, object, end, field}
use sk_core.DmSession.Snapshot.Behaviour.{
  Operation, sealing, opening, perform_all, AreTyped, perform_all-IsStored, restore-perform_all,
}
use sk_core.Tests.Toy.{toy, toy_laws}
use sk_core.Tests.ToyJson.{flat_json}
use sk_core.Tests.Sessions.{clock, draws, drawn, hello, alice_session, frame}

-- Numbers that are natural numbers in JSON and on the clock.
abbrev pub numbers : JsonNumbers ℕ ℕ
numbers = record {
  as_u64 = λ n. if ltb n (2 ^ 64) then some n else none;
  as_f64 = λ n. some n;
  from_f64 = λ n. some n;
}

pub numbers_laws : JsonNumbersLaws flat_json numbers
numbers_laws = record {
  as_u64-from_u64 = λ n h. ground (arith, h);
  as_f64-from_f64 = λ x n e. sym e;
  as_u64-IsU64 = λ n k e. ground (arith, e);
  as_f64_finite = λ n x e. (x, refl);
}

-- A hex that leaves bytes as they are.
abbrev pub plain_hex : Hex
plain_hex = record { encode = λ b. b; decode = λ t. some t }

pub plain_hex_laws : HexLaws plain_hex
plain_hex_laws = record { decode-encode = λ b. refl }

-- A message to a peer, and a frame that does not open.
abbrev before : List (Operation ℕ)
before =
    sealing draws hello (hybrid_keypair (toy []) (replicate 32 7) []).public_key
    ∷ opening frame []
    ∷ []

before-AreTyped : AreTyped (toy []) clock numbers before
before-AreTyped = ((drawn, (100, refl)), (omega arith, tt))

alice-IsStored : IsStored numbers alice_session
alice-IsStored =
    session_with_bounds-IsStored numbers (codes "bob") 50 604800 (omega arith) (omega arith)

perform_all-IsStored_example : IsStored numbers (perform_all (toy []) clock alice_session before).0
perform_all-IsStored_example =
    perform_all-IsStored (toy []) clock numbers (toy_laws []) alice_session before before-AreTyped
      alice-IsStored

abbrev used : DmSession ℕ
used = (perform_all (toy []) clock alice_session before).0

used-IsStored : IsStored numbers used
used-IsStored =
    perform_all-IsStored (toy []) clock numbers (toy_laws []) alice_session before before-AreTyped
      alice-IsStored

restore-snapshot_example :
    (s' : DmSession ℕ) × (restore flat_json numbers plain_hex
        (snapshot flat_json numbers plain_hex used)
      ≡ ok s')
    × Same used s'
restore-snapshot_example =
    restore-snapshot flat_json numbers plain_hex numbers_laws plain_hex_laws used used-IsStored

-- A snapshot whose only secret is too short.
abbrev short_secret : Value ℕ
short_secret = object (
    field (codes "peer") (string (codes "bob")) (
      field (codes "rekey_msg_bound") (number 50) (
        field (codes "rekey_age_seconds") (number 604800) (
          field (codes "epoch_secrets") (object (field (codes "0") (string (codes "short")) end))
            end))))

restore_answer_example : RestoreAnswer numbers (restore flat_json numbers plain_hex short_secret)
restore_answer_example = restore_answer flat_json numbers plain_hex numbers_laws short_secret

restore-perform_all_example :
    (s' : DmSession ℕ) × (restore flat_json numbers plain_hex
        (snapshot flat_json numbers plain_hex used)
      ≡ ok s')
    × ((perform_all (toy []) clock s' before).1 ≡ (perform_all (toy []) clock used before).1)
restore-perform_all_example =
    restore-perform_all (toy []) clock numbers (toy_laws []) flat_json plain_hex numbers_laws
      plain_hex_laws (codes "bob") 50 604800 before before (omega arith) (omega arith)
      before-AreTyped
