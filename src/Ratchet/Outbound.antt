-- ===== src/Ratchet/Outbound.antt =====
-- The sender's counter: the keys of a run of messages, and when the run ends in a rekey.
use sk_core.Prelude.{
  ℕ, zero, suc, ◌+◌, ◌%◌, ◌^◌, ◌≡◌, ◌<◌, refl, ap, Bool, true, false, ◌||◌, none, List, [], ◌∷◌,
  length, leb, arith, if◌then◌else◌,
}
use sk_core.Prelude.Bytes.{Bytes, IsU64}
use sk_core.Prelude.Outcome.{Outcome, ok, ◌>>=◌}
use native.Mathlib.Nat.{add-zero, zero-add}
use sk_core.Crypto.{Crates, HkdfLaws}
use sk_core.Ratchet.{
  DmRatchet, Float64, derive_dm_message_key, next_outbound_key, should_rekey, ratchet_should_rekey,
  with_bounds,
}
use sk_core.Ratchet.Schedule.{derive_dm_message_key_total}

if_or : (a b : Bool) → (if a then true else b) ≡ (a || b)
if_or true b = refl
if_or false b = refl

module _ (c : Crates) where
  -- The keys of `n` messages, one call of `next_outbound_key` after the other.
  unfoldable pub outbound_run :
      {F E : Type 0} → ℕ → DmRatchet F → Outcome E (List (ℕ × Bytes) × DmRatchet F)
  outbound_run zero r = ok ([], r)
  outbound_run (suc n) r = do
    (index, key, r') ← next_outbound_key c r
    (keys, last) ← outbound_run n r'
    ok ((index, key) ∷ keys, last)

  -- The pairs carry the indices from `i` on, each with the key that the receiver derives from it.
  abbrev pub Keyed : Bytes → ℕ → ℕ → List (ℕ × Bytes) → Type 0
  Keyed secret epoch i [] = Unit {0}
  Keyed secret epoch i ((index, key) ∷ keys) =
      (index ≡ i)
      × (derive_dm_message_key c secret epoch index ≡ ok key)
      × Keyed secret epoch (i + 1) keys

  module _ (hkdf : HkdfLaws c) {F : Type 0} where
    pub next_outbound_key_ok :
        {E : Type 0} (r : DmRatchet F)
        → length r.epoch_secret ≡ 32
        → (key : Bytes) × (derive_dm_message_key c r.epoch_secret r.epoch r.message_index ≡ ok key)
          × (length key ≡ 32)
          × (next_outbound_key c {E = E} r
              ≡ ok (
                r.message_index,
                key,
                record r { message_index = (r.message_index + 1) % 2 ^ 64 },
              ))
    unfolding next_outbound_key
    next_outbound_key_ok r h =
        let (key, e, l) =
          derive_dm_message_key_total c hkdf r.epoch_secret r.epoch r.message_index h in
        (key, e, l, rw e)

    -- While the counter stays in a `u64`, a run of `n` messages of a ratchet with a secret of 32
    -- bytes gives the next `n` indices in order, each with the key that the receiver derives from
    -- the secret, the epoch and that index. The run changes nothing of the ratchet but the counter.
    pub outbound_run-Keyed :
        {E : Type 0} (n : ℕ) (r : DmRatchet F)
        → length r.epoch_secret ≡ 32
        → IsU64 (r.message_index + n)
        → (keys : List (ℕ × Bytes)) × (outbound_run {E = E} n r
            ≡ ok (keys, record r { message_index = r.message_index + n }))
          × (length keys ≡ n)
          × Keyed r.epoch_secret r.epoch r.message_index keys
    unfolding outbound_run
    outbound_run-Keyed zero r h hi = ([], rw (add-zero r.message_index), refl, tt)
    outbound_run-Keyed {E} (suc n) r h hi =
        let i = r.message_index in
        let (key, e, _, step) = next_outbound_key_ok {E = E} r h in
        let (keys, run, l, keyed) =
          outbound_run-Keyed {E = E} n (record r { message_index = r.message_index + 1 }) h
            (omega arith) in
        let wrap : (r.message_index + 1) % 2 ^ 64 ≡ r.message_index + 1 = omega arith in
        let count : r.message_index + 1 + n ≡ r.message_index + suc n = omega arith in
        ((r.message_index, key) ∷ keys, rw (step, wrap, run, count), ap suc l, (refl, e, keyed))

    -- A fresh ratchet with a secret of 32 bytes that has given `n` keys, a `u64`, asks for a new
    -- epoch if `n` reached the message bound, and otherwise exactly if the clock says that the
    -- epoch reached its age.
    pub should_rekey-outbound_run :
        {E : Type 0} (fl : Float64 F) (started now : F) (epoch n bound age : ℕ) (secret : Bytes)
        → length secret ≡ 32
        → IsU64 n
        → (keys : List (ℕ × Bytes)) × (r : DmRatchet F) × (outbound_run {E = E} n
              (with_bounds started epoch secret bound age)
            ≡ ok (keys, r))
          × (ratchet_should_rekey fl r none now
              ≡ (leb bound n || fl.geb (fl.sub now started) (fl.from_u64 age)))
    unfolding ratchet_should_rekey should_rekey with_bounds
    should_rekey-outbound_run {E} fl started now epoch n bound age secret h hn =
        let (keys, run, _, _) =
          outbound_run-Keyed {E = E} n (with_bounds started epoch secret bound age) h
            (omega arith) in
        let aged = fl.geb (fl.sub now started) (fl.from_u64 age) in
        (keys, _, run, rw (zero-add n) (if_or (leb bound n) aged))

-- A ratchet that asks for no new epoch is below its message bound.
pub should_rekey_below :
    {F : Type 0} (fl : Float64 F) (r : DmRatchet F) (now : F)
    → ratchet_should_rekey fl r none now ≡ false
    → r.message_index < r.rekey_msg_bound
unfolding ratchet_should_rekey should_rekey
should_rekey_below fl r now h = ground arith
