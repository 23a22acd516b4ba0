-- ===== src/DmSession/Snapshot.antt =====
-- `snapshot` and `restore` of src/dm_session.rs: the session as a JSON value.
pub mod Secrets
pub mod Stored
pub mod Kept
pub mod RoundTrip
pub mod Sound
pub mod Answers
pub mod Alike
pub mod Behaviour
use sk_core.Prelude.{ℕ, ◌≡◌, Option, none, some, List, [], ◌∷◌, String, length, ◌==◌, if◌then◌else◌}
use sk_core.Prelude.Bytes.{Bytes, Text, codes}
use sk_core.Prelude.Maps.{lookup, insert}
use sk_core.Prelude.Decimal.{decimal, parse_u64}
use sk_core.Prelude.Outcome.{Outcome, ok, err, ◌>>=◌, ◌>>◌, guard, ok_or}
use sk_core.Json.{Value, Fields, SerdeJson, null, number, string, object, end, field, btree_insert}
use sk_core.Json.Access.{
  JsonNumbers, get, as_str, as_object, is_null, value_as_u64, value_as_f64, value_from_f64,
}
use sk_core.Ratchet.{DmRatchet, epoch_secret_len}
use sk_core.DmSession.{DmSession, DmSessionError, bad_token, bad_snapshot, session_with_bounds}

-- The hex crate.
pub record Hex : Type 0 where
  pub encode : Bytes → Text
  pub decode : Text → Option Bytes

-- Decoding inverts encoding.
pub record HexLaws (hex : Hex) : Type 0 where
  pub decode-encode : (b : Bytes) → hex.decode (hex.encode b) ≡ some b

-- `|m| DmSessionError::BadToken(format!("bad snapshot: {m}"))`.
abbrev pub bad : String → DmSessionError
bad m = bad_token (bad_snapshot m)

module _ {N F : Type 0} (json : SerdeJson N) (numbers : JsonNumbers N F) (hex : Hex) where
  -- `collect` into a `serde_json::Map`. A `HashMap` gives its entries in no certain order.
  pub secrets_value : List (ℕ × Bytes) → Fields N
  secrets_value [] = end
  secrets_value (entry ∷ rest) =
      btree_insert (decimal entry.0) (string (hex.encode entry.1)) (secrets_value rest)

  pub ratchet_value : Option (DmRatchet F) → Value N
  ratchet_value none = null
  ratchet_value (some r) = object (
      btree_insert (codes "epoch_started_at") (value_from_f64 numbers r.epoch_started_at) (
        btree_insert (codes "message_index") (number (json.from_u64 r.message_index))
          (btree_insert (codes "epoch") (number (json.from_u64 r.epoch)) end)))

  pub kam_value : Option Bytes → Value N
  kam_value none = null
  kam_value (some wrapped) = string (hex.encode wrapped)

  -- `json!` inserts its entries from the first to the last.
  pub snapshot : DmSession F → Value N
  snapshot s = object (
      btree_insert (codes "ratchet") (ratchet_value s.current) (
        btree_insert (codes "current_kam") (kam_value s.current_kam) (
          btree_insert (codes "epoch_secrets") (object (secrets_value s.epoch_secrets)) (
            btree_insert (codes "rekey_age_seconds") (number (json.from_u64 s.rekey_age_seconds)) (
              btree_insert (codes "rekey_msg_bound") (number (json.from_u64 s.rekey_msg_bound)) (
                btree_insert (codes "peer") (string s.peer)
                  (btree_insert (codes "v") (number (json.from_u64 1)) end)))))))

  -- `snap.get(key).and_then(…).ok_or_else(|| bad(m))`.
  pub u64_field : String → Text → Value N → Outcome DmSessionError ℕ
  u64_field m key v = do
    found ← ok_or (get key v) (bad m)
    ok_or (value_as_u64 numbers found) (bad m)

  pub f64_field : String → Text → Value N → Outcome DmSessionError F
  f64_field m key v = do
    found ← ok_or (get key v) (bad m)
    ok_or (value_as_f64 numbers found) (bad m)

  pub str_field : String → Text → Value N → Outcome DmSessionError Text
  str_field m key v = do found ← ok_or (get key v) (bad m); ok_or (as_str found) (bad m)

  -- The loop over the entries of `epoch_secrets`.
  pub restore_secrets : Fields N → List (ℕ × Bytes) → Outcome DmSessionError (List (ℕ × Bytes))
  restore_secrets end secrets = ok secrets
  restore_secrets (field e hexval rest) secrets = do
    epoch ← ok_or (parse_u64 e) (bad "bad epoch key")
    text ← ok_or (as_str hexval) (bad "secret not str")
    raw ← ok_or (hex.decode text) (bad "bad secret hex")
    guard (length raw == epoch_secret_len) (bad "secret wrong length")
    restore_secrets rest (insert epoch raw secrets)

  -- What is missing or no object counts as empty.
  pub restore_secrets_of : Option (Value N) → Outcome DmSessionError (List (ℕ × Bytes))
  restore_secrets_of none = ok []
  restore_secrets_of (some v) = elim (as_object v) [
    | none ↦ ok []
    | some fs ↦ restore_secrets fs []
  ]

  pub restore_kam : Option (Value N) → Outcome DmSessionError (Option Bytes)
  restore_kam none = ok none
  restore_kam (some v) = elim (as_str v) [
    | none ↦ ok none
    | some h ↦ ok_or (hex.decode h) (bad "bad current_kam hex") >>= λ wrapped. ok (some wrapped)
  ]

  pub restore_ratchet : ℕ → ℕ → List (ℕ × Bytes) → Value N → Outcome DmSessionError (DmRatchet F)
  unfolding u64_field f64_field
  restore_ratchet rekey_msg_bound rekey_age_seconds secrets rt = do
    epoch ← u64_field "ratchet.epoch" (codes "epoch") rt
    message_index ← u64_field "ratchet.message_index" (codes "message_index") rt
    epoch_started_at ← f64_field "ratchet.epoch_started_at" (codes "epoch_started_at") rt
    epoch_secret ← ok_or (lookup epoch secrets) (bad "ratchet epoch has no stored secret")
    ok (record {
      epoch = epoch;
      epoch_secret = epoch_secret;
      message_index = message_index;
      rekey_msg_bound = rekey_msg_bound;
      rekey_age_seconds = rekey_age_seconds;
      epoch_started_at = epoch_started_at;
    })

  pub restore_ratchet_of :
      ℕ → ℕ → List (ℕ × Bytes) → Option (Value N) → Outcome DmSessionError (Option (DmRatchet F))
  unfolding restore_ratchet
  restore_ratchet_of rekey_msg_bound rekey_age_seconds secrets none = ok none
  restore_ratchet_of rekey_msg_bound rekey_age_seconds secrets (some rt) =
      if is_null rt
      then ok none
      else restore_ratchet rekey_msg_bound rekey_age_seconds secrets rt >>= λ r. ok (some r)

  pub restore : Value N → Outcome DmSessionError (DmSession F)
  unfolding str_field u64_field restore_secrets_of restore_kam restore_ratchet_of
  restore snap = do
    peer ← str_field "missing peer" (codes "peer") snap
    rekey_msg_bound ← u64_field "missing rekey_msg_bound" (codes "rekey_msg_bound") snap
    rekey_age_seconds ← u64_field "missing rekey_age_seconds" (codes "rekey_age_seconds") snap
    let s = session_with_bounds {F = F} peer rekey_msg_bound rekey_age_seconds
    secrets ← restore_secrets_of (get (codes "epoch_secrets") snap)
    kam ← restore_kam (get (codes "current_kam") snap)
    current ←
        restore_ratchet_of rekey_msg_bound rekey_age_seconds secrets (get (codes "ratchet") snap)
    ok (record s { epoch_secrets = secrets; current_kam = kam; current = current })
