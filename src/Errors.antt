-- ===== src/Errors.antt =====
-- The `Display` texts of the error types of src/kem.rs, src/ratchet.rs, src/group_ratchet.rs,
-- src/dm_session.rs, src/pqdm.rs, src/pqroute.rs and src/anon_queue.rs.
use sk_core.Prelude.{ℕ, ◌++◌}
use sk_core.Prelude.Bytes.{Text, codes}
use sk_core.Prelude.Decimal.{decimal}
use sk_core.Kem.{KemError, bad_length, mlkem, public_key_len, private_key_len}
use sk_core.Ratchet as Ratchet
use sk_core.GroupRatchet as GroupRatchet
use sk_core.DmSession as DmSession
use sk_core.Pqdm as Pqdm
use sk_core.Pqroute as Pqroute
use sk_core.AnonQueue as AnonQueue

-- `{what} must be {expected} bytes, got {got}`.
unfoldable pub length_text : Text → ℕ → ℕ → Text
length_text what expected got =
    what ++ (codes " must be " ++ (decimal expected ++ (codes " bytes, got " ++ decimal got)))

unfoldable pub kem_text : KemError → Text
unfolding length_text
kem_text (bad_length what expected got) = length_text (codes what) expected got
kem_text (mlkem msg) = codes "ML-KEM error: " ++ codes msg

unfoldable pub ratchet_text : Ratchet.RatchetError → Text
unfolding length_text kem_text
ratchet_text (Ratchet.bad_secret_len got) =
    length_text (codes "epoch_secret") Ratchet.epoch_secret_len got
ratchet_text (Ratchet.bad_public_key_len got) =
    length_text (codes "peer hybrid public key") public_key_len got
ratchet_text (Ratchet.bad_payload_len got) =
    length_text (codes "wrapped epoch payload") Ratchet.wrapped_payload_len got
ratchet_text (Ratchet.kem e) = codes "hybrid KEM error: " ++ kem_text e
ratchet_text Ratchet.unwrap_failed = codes "dm epoch-secret unwrap failed"

unfoldable pub group_ratchet_text : GroupRatchet.GroupRatchetError → Text
unfolding length_text kem_text
group_ratchet_text (GroupRatchet.bad_secret_len got) =
    length_text (codes "epoch_secret") GroupRatchet.epoch_secret_len got
group_ratchet_text (GroupRatchet.bad_public_key_len got) =
    length_text (codes "member hybrid public key") public_key_len got
group_ratchet_text (GroupRatchet.bad_private_key_len got) =
    length_text (codes "member hybrid private key") private_key_len got
group_ratchet_text (GroupRatchet.bad_payload_len got) =
    length_text (codes "wrapped epoch payload") GroupRatchet.wrapped_payload_len got
group_ratchet_text (GroupRatchet.kem e) = codes "hybrid KEM error: " ++ kem_text e
group_ratchet_text GroupRatchet.unwrap_failed =
    codes "epoch-secret unwrap failed (auth tag mismatch)"

-- The reason of a `BadToken`, where `base64_error` is the text of the base64 crate's error.
token_fault_text : Text → DmSession.TokenFault → Text
token_fault_text base64_error DmSession.not_a_token = codes "not a pqdr1: token"
token_fault_text base64_error DmSession.invalid_base64 = codes "invalid base64: " ++ base64_error
token_fault_text base64_error DmSession.truncated = codes "truncated frame"
token_fault_text base64_error (DmSession.invalid_kam_flag other) =
    codes "invalid kam presence flag: " ++ decimal other
token_fault_text base64_error DmSession.trailing_bytes = codes "trailing bytes after frame"
token_fault_text base64_error (DmSession.bad_snapshot m) = codes "bad snapshot: " ++ codes m

unfoldable pub dm_session_text : Text → DmSession.DmSessionError → Text
unfolding token_fault_text ratchet_text
dm_session_text base64_error (DmSession.bad_token why) =
    codes "invalid "
    ++ (DmSession.pqdr_scheme ++ (codes " token: " ++ token_fault_text base64_error why))
dm_session_text base64_error DmSession.open_failed =
    codes "dm frame open failed (tamper or wrong key)"
dm_session_text base64_error (DmSession.missing_epoch_secret e) =
    codes "no epoch secret for epoch " ++ (decimal e ++ codes " (missing key-agreement message)")
dm_session_text base64_error (DmSession.ratchet e) = codes "ratchet error: " ++ ratchet_text e

pqdm_fault_text : Pqdm.FormatFault → Text
unfolding length_text
pqdm_fault_text (Pqdm.bad_public_key got) =
    length_text (codes "hybrid public key") public_key_len got
pqdm_fault_text Pqdm.encryption_failed = codes "AES-256-GCM encryption failed"
pqdm_fault_text (Pqdm.too_short got) =
    codes "sealed blob must be >= "
    ++ (decimal Pqdm.sealed_min_len ++ (codes " bytes, got " ++ decimal got))

-- `debug` is the `{:?}` of a text.
unfoldable pub pqdm_text : (Text → Text) → Pqdm.PqDmError → Text
unfolding pqdm_fault_text kem_text
pqdm_text debug (Pqdm.format m) = codes "pqdm format error: " ++ pqdm_fault_text m
pqdm_text debug (Pqdm.downgrade_detected expected_suite) =
    codes
      "pqdm downgrade detected: hybrid-sealed open failed — wrong key, tampered ciphertext, or a suite-downgrade attempt (AAD bound suite="
    ++ (debug expected_suite ++ codes ")")
pqdm_text debug (Pqdm.kem e) = codes "pqdm KEM error: " ++ kem_text e

-- `json_error` is the text of serde_json's error.
pqroute_fault_text : Text → Pqroute.FormatFault → Text
unfolding length_text
pqroute_fault_text json_error (Pqroute.bad_public_key got) =
    length_text (codes "dest_hybrid_pub") public_key_len got
pqroute_fault_text json_error Pqroute.seal_failed = codes "AES-256-GCM seal failed"
pqroute_fault_text json_error Pqroute.no_length_prefix =
    codes "blob too short for a route-header length prefix"
pqroute_fault_text json_error Pqroute.header_overflow = codes "route header length overflow"
pqroute_fault_text json_error Pqroute.header_too_long =
    codes "route header length exceeds blob size"
pqroute_fault_text json_error Pqroute.header_not_json =
    codes "route header not valid JSON: " ++ json_error
pqroute_fault_text json_error (Pqroute.sealed_too_short got) =
    codes "sealed inner must be >= "
    ++ (decimal Pqroute.sealed_min_len ++ (codes " bytes, got " ++ decimal got))

pqroute_open_text : Text → Pqroute.OpenFault → Text
unfolding kem_text
pqroute_open_text json_error (Pqroute.decapsulation_failed e) =
    codes "hybrid decapsulation failed: " ++ kem_text e
pqroute_open_text json_error Pqroute.open_failed =
    codes
      "pqroute1 open failed — wrong key, tampered inner, or a rewritten route header (the header is AEAD-bound)"
pqroute_open_text json_error Pqroute.inner_truncated = codes "decrypted inner is truncated"
pqroute_open_text json_error Pqroute.metadata_out_of_range =
    codes "decrypted inner metadata length is out of range"
pqroute_open_text json_error Pqroute.metadata_not_json =
    codes "inner metadata not valid JSON: " ++ json_error

unfoldable pub pqroute_text : Text → Pqroute.PqRouteError → Text
unfolding pqroute_fault_text pqroute_open_text kem_text
pqroute_text json_error (Pqroute.format m) =
    codes "pqroute format error: " ++ pqroute_fault_text json_error m
pqroute_text json_error (Pqroute.opening m) =
    codes "pqroute open error: " ++ pqroute_open_text json_error m
pqroute_text json_error (Pqroute.kem e) = codes "pqroute KEM error: " ++ kem_text e

unfoldable pub anon_queue_text : AnonQueue.AnonQueueError → Text
unfolding length_text
anon_queue_text (AnonQueue.bad_relay msg) = codes "relay " ++ codes msg
anon_queue_text (AnonQueue.bad_id_len what got) =
    length_text (codes what) AnonQueue.queue_id_len got
anon_queue_text (AnonQueue.bad_address msg) = codes "address " ++ codes msg
anon_queue_text AnonQueue.bad_base64 = codes "id is not valid base64url"
