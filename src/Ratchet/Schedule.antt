-- ===== src/Ratchet/Schedule.antt =====
-- The key schedule: what each message key is derived from.
use sk_core.Prelude.{ℕ, ◌≡◌, refl, length, ◌==◌, false, append-eq_parts, eq→==}
use sk_core.Prelude.Bytes.{Bytes, IsU64, be_bytes_injective}
use sk_core.Prelude.Outcome.{ok, err}
use sk_core.Crypto.{Crates, HkdfLaws}
use sk_core.Crypto.Calls.{hkdf32, hkdf32_total}
use sk_core.Ratchet.{
  RatchetError, bad_secret_len, message_salt, message_info, derive_dm_message_key,
  epoch_salt_prefix, msg_info_prefix,
}

-- Two slots with the same HKDF salt and info are one slot: the schedule separates every epoch and
-- index that a `u64` can hold.
message_slots_separate :
    (epoch index epoch' index' : ℕ)
    → IsU64 epoch
    → IsU64 index
    → IsU64 epoch'
    → IsU64 index'
    → message_salt epoch ≡ message_salt epoch'
    → message_info index ≡ message_info index'
    → (epoch ≡ epoch') × (index ≡ index')
unfolding message_salt message_info
message_slots_separate epoch index epoch' index' he hi he' hi' s i = (
  be_bytes_injective 8 epoch epoch' he he'
      (append-eq_parts epoch_salt_prefix epoch_salt_prefix _ _ refl s).1,
  be_bytes_injective 8 index index' hi hi'
      (append-eq_parts msg_info_prefix msg_info_prefix _ _ refl i).1,
)

module _ (c : Crates) where
  derive_dm_message_key_ok :
      (secret : Bytes) (epoch index : ℕ)
      → length secret ≡ 32
      → derive_dm_message_key c secret epoch index
        ≡ hkdf32 c (message_salt epoch) secret (message_info index)
  unfolding derive_dm_message_key
  derive_dm_message_key_ok secret epoch index h = rw (eq→== (length secret) 32 h)

  pub derive_dm_message_key_bad :
      (secret : Bytes) (epoch index : ℕ)
      → (length secret == 32) ≡ false
      → derive_dm_message_key c secret epoch index ≡ err (bad_secret_len (length secret))
  unfolding derive_dm_message_key
  derive_dm_message_key_bad secret epoch index h = rw h

  pub derive_dm_message_key_total :
      (hkdf : HkdfLaws c) (secret : Bytes) (epoch index : ℕ)
      → length secret ≡ 32
      → (key : Bytes) × (derive_dm_message_key c secret epoch index ≡ ok key) × (length key ≡ 32)
  derive_dm_message_key_total hkdf secret epoch index h =
      let (key, e, l) =
        hkdf32_total c {E = RatchetError} hkdf (message_salt epoch) secret (message_info index) in
      (key, rw (derive_dm_message_key_ok secret epoch index h, e), l)
