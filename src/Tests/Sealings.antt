-- ===== src/Tests/Sealings.antt =====
-- The theorems on the hybrid KEM and on sealed and routed messages at concrete inputs.
use sk_core.Prelude.{
  ℕ, ◌+◌, ◌≡◌, refl, List, [], ◌∷◌, ◌++◌, length, replicate, arith, drop, sym, ◌∙◌, none,
}
use sk_core.Prelude.Bytes.{Bytes, codes}
use sk_core.Prelude.Outcome.{ok, err}
use sk_core.Crypto.Calls.{OnlyUnder, encrypt}
use sk_core.Json.{btree_insert}
use sk_core.Kem.{hybrid_keypair, hybrid_encap, hybrid_decap}
use sk_core.Kem.RoundTrip.{hybrid_decap-encap}
use sk_core.Kem.Sealing.{Sealing, body_drop}
use sk_core.Crypto.{Fits}
use mathlib.Core.Path.{subst}
use sk_core.Prelude.Texts.{text_eq, text_lt}
use sk_core.Pqdm.{
  PqDmError, format, encryption_failed, info_wrap, lock_fields, hybrid_suite, classical_suite,
  downgrade_lock_aad, downgrade_detected, seal, open_sealed,
}
use sk_core.Pqdm.RoundTrip.{OpenAnswer, open_sealed-seal, open_sealed_answer}
use sk_core.Pqdm.Downgrade.{parts, open_sealed_downgraded, seal-blob}
use sk_core.Tests.Toy.{toy, toy_tag, toy_laws, toy-OnlyUnder}
use sk_core.Tests.ToyJson.{flat_json, flat_json_laws}

abbrev seed : Bytes
seed = replicate 32 7

hybrid_decap-encap_example :
    let kp = hybrid_keypair (toy []) seed [] in
    (ct ss : Bytes) × (hybrid_encap (toy []) [] [] kp.public_key ≡ ok (ct, ss))
    × (hybrid_decap (toy []) ct kp.private_key ≡ ok ss)
    × (length ct ≡ 1120)
    × (length ss ≡ 32)
hybrid_decap-encap_example =
    let l = toy_laws [] in hybrid_decap-encap (toy []) l.hkdf l.kem seed [] [] [] refl

abbrev alice : List ℕ
alice = codes "alice"

abbrev bob : List ℕ
bob = codes "bob"

abbrev lock : Bytes
lock = downgrade_lock_aad flat_json hybrid_suite alice bob none

lock_fits : Fits lock
unfolding downgrade_lock_aad lock_fields btree_insert text_eq text_lt
lock_fits = omega arith

abbrev hi : Bytes
hi = codes "hi"

abbrev nonce_of_12 : Bytes
nonce_of_12 = replicate 12 2

open_sealed-seal_example :
    let kp = hybrid_keypair (toy lock) seed [] in
    (sealed : Bytes) × (seal (toy lock) flat_json [] [] nonce_of_12 hi kp.public_key alice bob
      ≡ ok sealed)
    × (open_sealed (toy lock) flat_json sealed kp.private_key alice bob hybrid_suite ≡ ok hi)
    × (length sealed ≡ length hi + 1148)
open_sealed-seal_example =
    open_sealed-seal (toy lock) (toy_laws lock) flat_json seed [] [] [] nonce_of_12 hi alice bob
      refl refl (omega arith) lock_fits

open_sealed_answer_example :
    OpenAnswer (replicate 1200 1) (replicate 2432 1) classical_suite (
      open_sealed
        (toy [])
        flat_json
        (replicate 1200 1)
        (replicate 2432 1)
        alice
        bob
        classical_suite)
open_sealed_answer_example =
    open_sealed_answer (toy []) (toy_laws []) flat_json (replicate 1200 1) (replicate 2432 1) alice
      bob classical_suite

abbrev message_parts :
    Sealing
      (toy lock)
      PqDmError
      (format encryption_failed)
      (format encryption_failed)
      seed
      []
      []
      []
      (info_wrap ++ (b'|' ∷ lock))
      lock
      nonce_of_12
      hi
message_parts =
    parts (toy lock) (toy_laws lock) flat_json seed [] [] [] nonce_of_12 hi alice bob refl refl
      (omega arith) lock_fits

message_OnlyUnder :
    OnlyUnder
      (toy lock)
      lock
      nonce_of_12
      (drop 1132 (message_parts.ct ++ (nonce_of_12 ++ message_parts.body)))
unfolding encrypt
message_OnlyUnder =
    let is : (hi ++ toy_tag lock lock) ≡ message_parts.body = cc message_parts.sealed in
    subst (OnlyUnder (toy lock) lock nonce_of_12)
      (is
        ∙ sym (
            body_drop message_parts.ct nonce_of_12 message_parts.body
              (omega (arith, message_parts.length-ct))))
      (toy-OnlyUnder lock nonce_of_12 hi)

open_sealed_downgraded_example :
    open_sealed
      (toy lock)
      flat_json
      (message_parts.ct ++ (nonce_of_12 ++ message_parts.body))
      (hybrid_keypair (toy lock) seed []).private_key
      alice
      bob
      classical_suite
    ≡ err (downgrade_detected classical_suite)
open_sealed_downgraded_example =
    open_sealed_downgraded (toy lock) (toy_laws lock) flat_json seed [] [] [] nonce_of_12 hi alice
      bob refl refl (omega arith) lock_fits flat_json_laws
      (message_parts.ct ++ (nonce_of_12 ++ message_parts.body)) alice bob classical_suite
      (seal-blob (toy lock) (toy_laws lock) flat_json seed [] [] [] nonce_of_12 hi alice bob refl
        refl (omega arith) lock_fits)
      message_OnlyUnder (λ h. cc h.0)
