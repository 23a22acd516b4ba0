-- ===== src/Pqdm.antt =====
-- src/pqdm.rs: hybrid message sealing under the downgrade lock.
pub mod Lock
pub mod RoundTrip
pub mod Downgrade
use sk_core.Prelude.{
  ℕ, ◌+◌, ◌≤◌, Bool, ◌&&◌, Option, none, some, List, [], ◌∷◌, ◌++◌, length, ltb, ◌==◌,
  if◌then◌else◌, not,
}
use sk_core.Prelude.Bytes.{Bytes, Text, codes}
use sk_core.Prelude.Outcome.{Outcome, ok, ◌>>=◌, ◌>>◌, guard, map_err, slice_to, slice, slice_from}
use sk_core.Crypto.{Crates}
use sk_core.Crypto.Calls.{hkdf32, encrypt, decrypt}
use sk_core.Json.{Value, Fields, number, string, object, end, SerdeJson, btree_insert}
use sk_core.Kem.{KemError, public_key_len, ciphertext_len, hybrid_encap, hybrid_decap}

abbrev pub hybrid_suite : Text
hybrid_suite = codes "x25519-mlkem768"

abbrev pub classical_suite : Text
classical_suite = codes "x25519-pgp-wrap-v1"

abbrev pub info_wrap : Bytes
info_wrap = codes "skcomms/pqdm/wrap/v1"

abbrev pub wrap_nonce_len : ℕ
wrap_nonce_len = 12

abbrev pub aesgcm_tag_len : ℕ
aesgcm_tag_len = 16

abbrev pub sealed_min_len : ℕ
sealed_min_len = ciphertext_len + wrap_nonce_len + aesgcm_tag_len

-- The texts of a `Format` error, with the number that each names.
pub data FormatFault : Type 0 where
  bad_public_key : ℕ → FormatFault
  encryption_failed : FormatFault
  too_short : ℕ → FormatFault

pub data PqDmError : Type 0 where
  format : FormatFault → PqDmError
  downgrade_detected : Text → PqDmError
  kem : KemError → PqDmError

pub negotiate_suite : Bool → Bool → Text
negotiate_suite local_supports_hybrid recipient_has_hybrid =
    if local_supports_hybrid && recipient_has_hybrid then hybrid_suite else classical_suite

module _ {N : Type 0} (json : SerdeJson N) where
  -- The map that the AAD's head is written from, in the order of the inserts.
  unfoldable pub lock_fields : Text → Text → Text → Fields N
  lock_fields negotiated_suite sender recipient =
      btree_insert (codes "recipient") (string recipient) (
        btree_insert (codes "sender") (string sender) (
          btree_insert (codes "negotiated_suite") (string negotiated_suite)
            (btree_insert (codes "v") (number (json.from_u64 1)) end)))

  unfoldable pub downgrade_lock_aad : Text → Text → Text → Option Bytes → Bytes
  unfolding lock_fields
  downgrade_lock_aad negotiated_suite sender recipient extra =
      json.to_vec (object (lock_fields negotiated_suite sender recipient))
      ++ (elim extra [ none ↦ [] | some more ↦ more ])

module _ (c : Crates) where
  pub wrap_key : Bytes → Bytes → Outcome PqDmError Bytes
  wrap_key shared aad = hkdf32 c [] shared (info_wrap ++ (b'|' ∷ aad))

  module _ {N : Type 0} (json : SerdeJson N) where
    -- The first three arguments are draws: the two of the encapsulation, and the nonce.
    unfoldable pub seal :
        Bytes → Bytes → Bytes → Bytes → Bytes → Text → Text → Outcome PqDmError Bytes
    seal x_eph mlkem_rand nonce plaintext recipient_hybrid_pub sender recipient = do
      guard (length recipient_hybrid_pub == public_key_len)
          (format (bad_public_key (length recipient_hybrid_pub)))
      let aad = downgrade_lock_aad json hybrid_suite sender recipient none
      (ciphertext, shared) ← map_err kem (hybrid_encap c x_eph mlkem_rand recipient_hybrid_pub)
      key ← wrap_key shared aad
      body ← encrypt c (format encryption_failed) key nonce aad plaintext
      ok (ciphertext ++ (nonce ++ body))

    pub open_sealed : Bytes → Bytes → Text → Text → Text → Outcome PqDmError Bytes
    open_sealed sealed hybrid_private sender recipient expected_suite = do
      guard (not (ltb (length sealed) sealed_min_len)) (format (too_short (length sealed)))
      ciphertext ← slice_to ciphertext_len sealed
      nonce ← slice ciphertext_len (ciphertext_len + wrap_nonce_len) sealed
      body ← slice_from (ciphertext_len + wrap_nonce_len) sealed
      let aad = downgrade_lock_aad json expected_suite sender recipient none
      shared ← map_err kem (hybrid_decap c ciphertext hybrid_private)
      key ← wrap_key shared aad
      decrypt c (downgrade_detected expected_suite) key nonce aad body
