-- ===== src/GroupRatchet.antt =====
-- src/group_ratchet.rs: the group epoch ratchet, its per-member wrapping and its message keys.
pub mod Wrapping
pub mod Outbound
use sk_core.Prelude.{ℕ, ◌+◌, ◌%◌, ◌^◌, ◌*◌, Bool, true, [], ◌++◌, length, leb, ◌==◌, if◌then◌else◌}
use sk_core.Prelude.Bytes.{Bytes, Text, codes, u64_be}
use sk_core.Prelude.Outcome.{Outcome, ok, ◌>>=◌, ◌>>◌, guard, map_err, slice_to, slice, slice_from}
use sk_core.Crypto.{Crates}
use sk_core.Crypto.Calls.{hkdf32, encrypt, decrypt}
use sk_core.Kem.{
  KemError, public_key_len, private_key_len, ciphertext_len, hybrid_encap, hybrid_decap,
}
use sk_core.Ratchet.{Float64}

abbrev hybrid_kem_suite : Text
hybrid_kem_suite = codes "x25519-mlkem768"

abbrev pub epoch_secret_len : ℕ
epoch_secret_len = 32

abbrev pub message_key_len : ℕ
message_key_len = 32

abbrev pub epoch_wrap_info : Bytes
epoch_wrap_info = codes "skchat/group-ratchet/epoch-wrap/v1"

abbrev pub msg_salt_prefix : Bytes
msg_salt_prefix = codes "skchat/epoch/"

abbrev pub msg_info_prefix : Bytes
msg_info_prefix = codes "skchat/group-ratchet/msg/v1/"

abbrev pub wrap_nonce_len : ℕ
wrap_nonce_len = 12

abbrev pub wrapped_secret_len : ℕ
wrapped_secret_len = epoch_secret_len + 16

abbrev pub wrapped_payload_len : ℕ
wrapped_payload_len = ciphertext_len + wrap_nonce_len + wrapped_secret_len

abbrev pub default_rekey_msg_bound : ℕ
default_rekey_msg_bound = 50

abbrev pub default_rekey_age_seconds : ℕ
default_rekey_age_seconds = 7 * 24 * 3600

pub data GroupRatchetError : Type 0 where
  bad_secret_len : ℕ → GroupRatchetError
  bad_public_key_len : ℕ → GroupRatchetError
  bad_private_key_len : ℕ → GroupRatchetError
  bad_payload_len : ℕ → GroupRatchetError
  kem : KemError → GroupRatchetError
  unwrap_failed : GroupRatchetError

unfoldable pub message_salt : ℕ → Bytes
message_salt epoch = msg_salt_prefix ++ u64_be epoch

unfoldable pub message_info : ℕ → Bytes
message_info index = msg_info_prefix ++ u64_be index

pub record EpochRatchet (F : Type 0) : Type 0 where
  pub epoch : ℕ
  pub epoch_secret : Bytes
  pub message_index : ℕ
  pub rekey_msg_bound : ℕ
  pub rekey_age_seconds : ℕ
  pub epoch_started_at : F

module _ {F : Type 0} where
  unfoldable pub new_with_started_at : ℕ → Bytes → F → EpochRatchet F
  new_with_started_at epoch epoch_secret epoch_started_at = record {
    epoch = epoch;
    epoch_secret = epoch_secret;
    message_index = 0;
    rekey_msg_bound = default_rekey_msg_bound;
    rekey_age_seconds = default_rekey_age_seconds;
    epoch_started_at = epoch_started_at;
  }

  -- `clock` is what `now_unix` reads.
  unfoldable pub new_ratchet : F → ℕ → Bytes → EpochRatchet F
  new_ratchet clock epoch epoch_secret = record {
    epoch = epoch;
    epoch_secret = epoch_secret;
    message_index = 0;
    rekey_msg_bound = default_rekey_msg_bound;
    rekey_age_seconds = default_rekey_age_seconds;
    epoch_started_at = clock;
  }

  unfoldable pub should_rekey : Float64 F → EpochRatchet F → F → Bool
  should_rekey fl r now =
      if leb r.rekey_msg_bound r.message_index
      then true
      else fl.geb (fl.sub now r.epoch_started_at) (fl.from_u64 r.rekey_age_seconds)

module _ (c : Crates) where
  -- Generic in the error, which an `expect` never produces.
  pub derive_message_key_arr : {E : Type 0} → Bytes → ℕ → ℕ → Outcome E Bytes
  derive_message_key_arr epoch_secret epoch index =
      hkdf32 c (message_salt epoch) epoch_secret (message_info index)

  pub derive_message_key : Bytes → ℕ → ℕ → Outcome GroupRatchetError Bytes
  derive_message_key epoch_secret epoch index = do
    guard (length epoch_secret == epoch_secret_len) (bad_secret_len (length epoch_secret))
    derive_message_key_arr epoch_secret epoch index

  unfoldable pub derive_wrap_key : Bytes → Outcome GroupRatchetError Bytes
  derive_wrap_key shared = hkdf32 c [] shared epoch_wrap_info

  -- The first three arguments are draws: the two of the encapsulation, and the nonce.
  pub wrap_epoch_secret : Bytes → Bytes → Bytes → Bytes → Bytes → Outcome GroupRatchetError Bytes
  wrap_epoch_secret x_eph mlkem_rand nonce epoch_secret member_hybrid_pub = do
    guard (length epoch_secret == epoch_secret_len) (bad_secret_len (length epoch_secret))
    guard (length member_hybrid_pub == public_key_len)
        (bad_public_key_len (length member_hybrid_pub))
    (ciphertext, shared) ← map_err kem (hybrid_encap c x_eph mlkem_rand member_hybrid_pub)
    wrap_key ← derive_wrap_key shared
    wrapped ← encrypt c unwrap_failed wrap_key nonce [] epoch_secret
    ok (ciphertext ++ (nonce ++ wrapped))

  pub unwrap_epoch_secret : Bytes → Bytes → Outcome GroupRatchetError Bytes
  unwrap_epoch_secret payload member_hybrid_priv = do
    guard (length payload == wrapped_payload_len) (bad_payload_len (length payload))
    guard (length member_hybrid_priv == private_key_len)
        (bad_private_key_len (length member_hybrid_priv))
    ciphertext ← slice_to ciphertext_len payload
    nonce ← slice ciphertext_len (ciphertext_len + wrap_nonce_len) payload
    wrapped ← slice_from (ciphertext_len + wrap_nonce_len) payload
    shared ← map_err kem (hybrid_decap c ciphertext member_hybrid_priv)
    wrap_key ← derive_wrap_key shared
    plaintext ← decrypt c unwrap_failed wrap_key nonce [] wrapped
    guard (length plaintext == epoch_secret_len) (bad_secret_len (length plaintext))
    ok plaintext

  module _ {F E : Type 0} where
    unfoldable pub message_key : EpochRatchet F → ℕ → Outcome E Bytes
    message_key r index = derive_message_key_arr r.epoch_secret r.epoch index

    -- The counter wraps as a release build's does.
    unfoldable pub next_outbound_key : EpochRatchet F → Outcome E (ℕ × Bytes × EpochRatchet F)
    next_outbound_key r = do
      key ← derive_message_key_arr r.epoch_secret r.epoch r.message_index
      ok (r.message_index, key, record r { message_index = (r.message_index + 1) % 2 ^ 64 })
