-- ===== src/Tests/Queues.antt =====
-- The theorems on anonymous queues at concrete inputs.
use sk_core.Prelude.{◌≡◌, ◌≢◌, refl, false, some, [], ◌∷◌, ◌++◌, length, replicate}
use sk_core.Prelude.Bytes.{Bytes, Text, codes}
use sk_core.Prelude.Outcome.{ok}
use sk_core.Prelude.Maps.{strip_prefix}
use sk_core.AnonQueue.{
  split_once, is_empty, Base64Url, Base64UrlLaws, aqid_scheme, contains, encode_aqid, decode_aqid,
  new_queue_pair,
}
use sk_core.AnonQueue.Pairs.{new_queue_pair-replicate}
use sk_core.AnonQueue.Address.{decode_aqid-encode_aqid, decode_aqid-eq_ok}

-- A base64 that leaves bytes as they are.
abbrev plain : Base64Url
plain = record { encode = λ b. b; decode = λ t. some t }

plain_laws : Base64UrlLaws plain
plain_laws = record { decode-encode = λ b. refl; encode_nonempty = λ x b e. cc e }

abbrev relay : Text
relay = codes "relay.example"

abbrev id : Bytes
id = replicate 16 7

relay_nonempty : relay ≢ []
relay_nonempty = λ e. cc e

no_slash : contains b'/' relay ≡ false
unfolding contains
no_slash = refl

new_queue_pair-replicate_example :
    new_queue_pair (id ∷ (replicate 2 id ++ (replicate 16 8 ∷ []))) ≡ some (id, replicate 16 8)
new_queue_pair-replicate_example = new_queue_pair-replicate 2 id (replicate 16 8) [] (λ e. cc e)

decode_aqid-encode_aqid_example :
    (s : Text) × (encode_aqid plain relay id ≡ ok s) × (decode_aqid plain s ≡ ok (relay, id))
decode_aqid-encode_aqid_example =
    decode_aqid-encode_aqid plain plain_laws relay id relay_nonempty no_slash refl

decoded : decode_aqid plain (aqid_scheme ++ (relay ++ (b'/' ∷ id))) ≡ ok (relay, id)
unfolding decode_aqid strip_prefix split_once is_empty
decoded = refl

decode_aqid-eq_ok_example :
    (relay ≢ [])
    × (contains b'/' relay ≡ false)
    × (length id ≡ 16)
    × ((text : Text) × ((aqid_scheme ++ (relay ++ (b'/' ∷ id)))
          ≡ aqid_scheme ++ (relay ++ (b'/' ∷ text)))
        × (plain.decode text ≡ some id))
decode_aqid-eq_ok_example =
    decode_aqid-eq_ok plain (aqid_scheme ++ (relay ++ (b'/' ∷ id))) relay id decoded
