-- ===== src/AnonQueue.antt =====
-- src/anon_queue.rs: anonymous queue ids, their `aqid:` addresses and the deniable authenticator.
pub mod Address
pub mod Pairs
use sk_core.Prelude.{
  ℕ, Bool, true, false, Option, none, some, List, [], ◌∷◌, ◌++◌, length, ◌==◌, if◌then◌else◌, not,
  String, ◌≡◌, ◌≢◌,
}
use sk_core.Prelude.Bytes.{Bytes, Text, codes}
use sk_core.Prelude.Maps.{strip_prefix}
use sk_core.Prelude.Texts.{text_eq}
use sk_core.Prelude.Outcome.{Outcome, ok, ◌>>=◌, ◌>>◌, guard, ok_or}

abbrev pub queue_id_len : ℕ
queue_id_len = 16

abbrev pub aqid_scheme : Text
aqid_scheme = codes "aqid:"

pub data AnonQueueError : Type 0 where
  bad_relay : String → AnonQueueError
  bad_id_len : String → ℕ → AnonQueueError
  bad_address : String → AnonQueueError
  bad_base64 : AnonQueueError

-- The base64 crate's `URL_SAFE_NO_PAD` engine.
pub record Base64Url : Type 0 where
  pub encode : Bytes → Text
  pub decode : Text → Option Bytes

-- Decoding inverts encoding, and only the empty string of bytes has an empty encoding.
pub record Base64UrlLaws (b64 : Base64Url) : Type 0 where
  pub decode-encode : (b : Bytes) → b64.decode (b64.encode b) ≡ some b
  pub encode_nonempty : (x : ℕ) (b : Bytes) → b64.encode (x ∷ b) ≢ []

-- The loop of `new_queue_pair`, on the ids that the generator gives from there on: `none` if they
-- run out.
pub draw_distinct : Bytes → List Bytes → Option Bytes
draw_distinct recipient_id [] = none
draw_distinct recipient_id (sender_id ∷ draws) =
    if text_eq sender_id recipient_id then draw_distinct recipient_id draws else some sender_id

pub new_queue_pair : List Bytes → Option (Bytes × Bytes)
unfolding draw_distinct
new_queue_pair [] = none
new_queue_pair (recipient_id ∷ draws) = elim (draw_distinct recipient_id draws) [
  | none ↦ none
  | some sender_id ↦ some (recipient_id, sender_id)
]

-- `str::is_empty`, `str::contains` and `str::split_once` for one character.
unfoldable pub is_empty : Text → Bool
is_empty [] = true
is_empty (c ∷ s) = false

unfoldable pub contains : ℕ → Text → Bool
contains d [] = false
contains d (c ∷ s) = if c == d then true else contains d s

unfoldable pub split_once : ℕ → Text → Option (Text × Text)
split_once d [] = none
split_once d (c ∷ s) =
    if c == d
    then some ([], s)
    else (elim (split_once d s) [ none ↦ none | some (before, after) ↦ some (c ∷ before, after) ])

module _ (b64 : Base64Url) where
  pub encode_aqid : Text → Bytes → Outcome AnonQueueError Text
  encode_aqid relay sender_id = do
    guard (not (is_empty relay)) (bad_relay "must be a non-empty string")
    guard (not (contains b'/' relay)) (bad_relay "must not contain '/'")
    guard (length sender_id == queue_id_len) (bad_id_len "sender_id" (length sender_id))
    ok (aqid_scheme ++ (relay ++ (b'/' ∷ b64.encode sender_id)))

  unfoldable pub decode_aqid : Text → Outcome AnonQueueError (Text × Bytes)
  decode_aqid s = do
    body ← ok_or (strip_prefix aqid_scheme s) (bad_address "must start with 'aqid:'")
    (relay, id) ← ok_or (split_once b'/' body) (bad_address "must be 'aqid:<relay>/<id>'")
    guard (not (is_empty relay)) (bad_address "relay must be non-empty")
    guard (not (is_empty id)) (bad_address "id must be non-empty")
    raw ← ok_or (b64.decode id) bad_base64
    guard (length raw == queue_id_len) (bad_id_len "decoded id" (length raw))
    ok (relay, raw)

-- `hmac` is HMAC-SHA256: a key and a message to a tag.
module _ (hmac : Bytes → Bytes → Bytes) where
  pub auth_tag : Bytes → Bytes → Bytes → Bytes
  auth_tag secret message nonce = hmac secret (nonce ++ message)

  pub verify_tag : Bytes → Bytes → Bytes → Bytes → Bool
  unfolding auth_tag
  verify_tag secret message nonce tag = text_eq (auth_tag secret message nonce) tag
