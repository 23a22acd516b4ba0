-- ===== src/Ratchet.antt =====
-- src/ratchet.rs: the key schedule of a 1:1 conversation, the wrapping of its epoch secrets, and the
-- ratchet of one epoch.
pub mod Schedule
pub mod Wrapping
pub mod Outbound
use sk_core.Prelude.{
  ℕ, ◌+◌, ◌%◌, ◌^◌, ◌*◌, ◌≡◌, Bool, true, Option, some, none, List, [], ◌∷◌, ◌++◌, length, leb,
  ◌==◌, if◌then◌else◌,
}
use sk_core.Prelude.Bytes.{Bytes, codes, u64_be}
use sk_core.Prelude.Outcome.{
  Outcome, ok, err, panic, ◌>>=◌, ◌>>◌, guard, map_err, expect_ok, slice_to, slice, slice_from,
}
use sk_core.Crypto.{Crates}
use sk_core.Crypto.Calls.{hkdf32, encrypt, decrypt}
use sk_core.Kem.{KemError, public_key_len, ciphertext_len, hybrid_encap, hybrid_decap}

abbrev pub epoch_secret_len : ℕ
epoch_secret_len = 32

abbrev pub message_key_len : ℕ
message_key_len = 32

abbrev pub default_rekey_msg_bound : ℕ
default_rekey_msg_bound = 50

abbrev pub default_rekey_age_seconds : ℕ
default_rekey_age_seconds = 7 * 24 * 3600

abbrev pub epoch_salt_prefix : Bytes
epoch_salt_prefix = codes "skchat/dm-epoch/"

abbrev pub msg_info_prefix : Bytes
msg_info_prefix = codes "skchat/dm-ratchet/msg/v1/"

abbrev pub info_dm_wrap : Bytes
info_dm_wrap = codes "skchat/dm-ratchet/epoch-wrap/v1"

abbrev pub wrap_nonce_len : ℕ
wrap_nonce_len = 12

abbrev pub wrapped_secret_len : ℕ
wrapped_secret_len = epoch_secret_len + 16

abbrev pub wrapped_payload_len : ℕ
wrapped_payload_len = ciphertext_len + wrap_nonce_len + wrapped_secret_len

pub data RatchetError : Type 0 where
  bad_secret_len : ℕ → RatchetError
  bad_public_key_len : ℕ → RatchetError
  bad_payload_len : ℕ → RatchetError
  kem : KemError → RatchetError
  unwrap_failed : RatchetError

-- The salt and the info of a message key.
unfoldable pub message_salt : ℕ → Bytes
message_salt epoch = epoch_salt_prefix ++ u64_be epoch

unfoldable pub message_info : ℕ → Bytes
message_info index = msg_info_prefix ++ u64_be index

-- `f64`, of which the sources use subtraction, `u64 as f64` and `>=`.
pub record Float64 (F : Type 0) : Type 0 where
  pub sub : F → F → F
  pub from_u64 : ℕ → F
  pub geb : F → F → Bool

pub record DmRatchet (F : Type 0) : Type 0 where
  pub epoch : ℕ
  pub epoch_secret : Bytes
  pub message_index : ℕ
  pub rekey_msg_bound : ℕ
  pub rekey_age_seconds : ℕ
  pub epoch_started_at : F

module _ {F : Type 0} (fl : Float64 F) where
  pub should_rekey : ℕ → F → F → ℕ → ℕ → Bool
  should_rekey message_index epoch_started_at now rekey_msg_bound rekey_age_seconds =
      if leb rekey_msg_bound message_index
      then true
      else fl.geb (fl.sub now epoch_started_at) (fl.from_u64 rekey_age_seconds)

  -- The method; `now` is the argument, or the wall clock where the caller passes none.
  pub ratchet_should_rekey : DmRatchet F → Option F → F → Bool
  unfolding should_rekey
  ratchet_should_rekey r now clock =
      should_rekey r.message_index r.epoch_started_at (elim now [ none ↦ clock | some t ↦ t ])
        r.rekey_msg_bound r.rekey_age_seconds

-- `clock` is what `now_seconds` reads.
unfoldable pub with_bounds : {F : Type 0} → F → ℕ → Bytes → ℕ → ℕ → DmRatchet F
with_bounds clock epoch epoch_secret rekey_msg_bound rekey_age_seconds = record {
  epoch = epoch;
  epoch_secret = epoch_secret;
  message_index = 0;
  rekey_msg_bound = rekey_msg_bound;
  rekey_age_seconds = rekey_age_seconds;
  epoch_started_at = clock;
}

unfoldable pub new_ratchet : {F : Type 0} → F → ℕ → Bytes → DmRatchet F
unfolding with_bounds
new_ratchet clock epoch epoch_secret =
    with_bounds clock epoch epoch_secret default_rekey_msg_bound default_rekey_age_seconds

module _ (c : Crates) where
  unfoldable pub derive_dm_message_key : Bytes → ℕ → ℕ → Outcome RatchetError Bytes
  derive_dm_message_key epoch_secret epoch index = do
    guard (length epoch_secret == epoch_secret_len) (bad_secret_len (length epoch_secret))
    hkdf32 c (message_salt epoch) epoch_secret (message_info index)

  pub dm_wrap_key : Bytes → Outcome RatchetError Bytes
  dm_wrap_key shared = hkdf32 c [] shared info_dm_wrap

  -- The first three arguments are draws: the two of the encapsulation, and the nonce.
  pub wrap_dm_epoch_secret : Bytes → Bytes → Bytes → Bytes → Bytes → Outcome RatchetError Bytes
  wrap_dm_epoch_secret x_eph mlkem_rand nonce epoch_secret peer_hybrid_pub = do
    guard (length epoch_secret == epoch_secret_len) (bad_secret_len (length epoch_secret))
    guard (length peer_hybrid_pub == public_key_len) (bad_public_key_len (length peer_hybrid_pub))
    (ciphertext, shared) ← map_err kem (hybrid_encap c x_eph mlkem_rand peer_hybrid_pub)
    wrap_key ← dm_wrap_key shared
    wrapped ← encrypt c unwrap_failed wrap_key nonce [] epoch_secret
    ok (ciphertext ++ (nonce ++ wrapped))

  pub unwrap_dm_epoch_secret : Bytes → Bytes → Outcome RatchetError Bytes
  unwrap_dm_epoch_secret payload peer_hybrid_priv = do
    guard (length payload == wrapped_payload_len) (bad_payload_len (length payload))
    ciphertext ← slice_to ciphertext_len payload
    nonce ← slice ciphertext_len (ciphertext_len + wrap_nonce_len) payload
    wrapped ← slice_from (ciphertext_len + wrap_nonce_len) payload
    shared ← map_err kem (hybrid_decap c ciphertext peer_hybrid_priv)
    wrap_key ← dm_wrap_key shared
    plain ← decrypt c unwrap_failed wrap_key nonce [] wrapped
    guard (length plain == epoch_secret_len) unwrap_failed
    ok plain

  module _ {F : Type 0} where
    unfoldable pub message_key : DmRatchet F → Option ℕ → Outcome RatchetError Bytes
    message_key r index =
        derive_dm_message_key r.epoch_secret r.epoch
          (elim index [ none ↦ r.message_index | some i ↦ i ])

    -- The index, the key and the ratchet afterwards. The counter wraps as a release build's does.
    unfoldable pub next_outbound_key :
        {E : Type 0} → DmRatchet F → Outcome E (ℕ × Bytes × DmRatchet F)
    next_outbound_key r = do
      key ← expect_ok (derive_dm_message_key r.epoch_secret r.epoch r.message_index)
      ok (r.message_index, key, record r { message_index = (r.message_index + 1) % 2 ^ 64 })
