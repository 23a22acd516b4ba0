-- ===== src/GroupRatchet/Outbound.antt =====
-- The group sender's keys against the receivers', and the separation of group keys from DM keys.
use native.Mathlib.Nat.{add-zero}
use sk_core.Prelude.{
  ℕ, zero, suc, ◌+◌, ◌%◌, ◌^◌, ◌≡◌, ◌≢◌, refl, ap, List, [], ◌∷◌, length, arith, eq→==,
  append-eq_parts, length-append,
}
use sk_core.Prelude.Bytes.{Bytes, IsU64, u64_be, be_bytes_injective, length-be_bytes}
use sk_core.Prelude.Outcome.{Outcome, ok, ◌>>=◌}
use sk_core.Crypto.{Crates, HkdfLaws}
use sk_core.Crypto.Calls.{hkdf32}
use sk_core.GroupRatchet.{
  EpochRatchet, message_salt, message_info, msg_salt_prefix, msg_info_prefix,
  derive_message_key_arr, derive_message_key, next_outbound_key,
}
use sk_core.Ratchet
use sk_core.Ratchet.{epoch_salt_prefix}

-- Two slots of the group schedule, numbered by `u64`s, with the same HKDF salt and info are one
-- slot, and no salt of the group schedule is one of the DM schedule.
pub group_slots_separate :
    (epoch index epoch' index' : ℕ)
    → IsU64 epoch
    → IsU64 index
    → IsU64 epoch'
    → IsU64 index'
    → (message_salt epoch ≡ message_salt epoch'
        → message_info index ≡ message_info index'
        → (epoch ≡ epoch') × (index ≡ index'))
      × (message_salt epoch ≢ Ratchet.message_salt epoch')
unfolding message_salt message_info Ratchet.message_salt
group_slots_separate epoch index epoch' index' he hi he' hi' = (
  λ s i. (
    be_bytes_injective 8 epoch epoch' he he'
        (append-eq_parts msg_salt_prefix msg_salt_prefix _ _ refl s).1,
    be_bytes_injective 8 index index' hi hi'
        (append-eq_parts msg_info_prefix msg_info_prefix _ _ refl i).1,
  ),
  λ e. absurd (
      omega (
        arith,
        ap length e,
        length-append msg_salt_prefix (u64_be epoch),
        length-append epoch_salt_prefix (u64_be epoch'),
        length-be_bytes 8 epoch,
        length-be_bytes 8 epoch',
      )),
)

module _ (c : Crates) where
  -- The keys of `n` messages, one call of `next_outbound_key` after the other.
  unfoldable pub outbound_run :
      {F E : Type 0} → ℕ → EpochRatchet F → Outcome E (List (ℕ × Bytes) × EpochRatchet F)
  outbound_run zero r = ok ([], r)
  outbound_run (suc n) r = do
    (index, key, r') ← next_outbound_key c r
    (keys, last) ← outbound_run n r'
    ok ((index, key) ∷ keys, last)

  -- The pairs carry the indices from `i` on, each with the key that a receiver derives from it.
  abbrev pub Keyed : Bytes → ℕ → ℕ → List (ℕ × Bytes) → Type 0
  Keyed secret epoch i [] = Unit {0}
  Keyed secret epoch i ((index, key) ∷ keys) =
      (index ≡ i)
      × (derive_message_key c secret epoch index ≡ ok key)
      × Keyed secret epoch (i + 1) keys

  module _ (hkdf : HkdfLaws c) {F E : Type 0} where
    next_outbound_key_ok :
        (r : EpochRatchet F)
        → length r.epoch_secret ≡ 32
        → (key : Bytes) × (derive_message_key c r.epoch_secret r.epoch r.message_index ≡ ok key)
          × (next_outbound_key c {E = E} r
              ≡ ok (
                r.message_index,
                key,
                record r { message_index = (r.message_index + 1) % 2 ^ 64 },
              ))
    unfolding next_outbound_key derive_message_key derive_message_key_arr hkdf32
    next_outbound_key_ok r h =
        let (key, e, _) =
          hkdf.expands (message_salt r.epoch) r.epoch_secret (message_info r.message_index) 32
            (omega arith) in
        (key, rw (eq→== (length r.epoch_secret) 32 h, e), rw e)

    -- While the counter stays in a `u64`, a run of `n` messages of a ratchet with a secret of 32
    -- bytes gives the next `n` indices in order, each with the key that `derive_message_key` gives
    -- every member from the secret, the epoch and that index; of the ratchet only the counter
    -- changes.
    pub group_run-Keyed :
        (n : ℕ) (r : EpochRatchet F)
        → length r.epoch_secret ≡ 32
        → IsU64 (r.message_index + n)
        → (keys : List (ℕ × Bytes)) × (outbound_run {E = E} n r
            ≡ ok (keys, record r { message_index = r.message_index + n }))
          × (length keys ≡ n)
          × Keyed r.epoch_secret r.epoch r.message_index keys
    unfolding outbound_run
    group_run-Keyed zero r h hi = ([], rw (add-zero r.message_index), refl, tt)
    group_run-Keyed (suc n) r h hi =
        let (key, e, step) = next_outbound_key_ok r h in
        let (keys, run, l, keyed) =
          group_run-Keyed n (record r { message_index = r.message_index + 1 }) h (omega arith) in
        let wrap : (r.message_index + 1) % 2 ^ 64 ≡ r.message_index + 1 = omega arith in
        let count : r.message_index + 1 + n ≡ r.message_index + suc n = omega arith in
        ((r.message_index, key) ∷ keys, rw (step, wrap, run, count), ap suc l, (refl, e, keyed))
