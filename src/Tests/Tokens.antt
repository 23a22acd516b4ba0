-- ===== src/Tests/Tokens.antt =====
-- The theorems on tokens at concrete inputs.
use sk_core.Prelude.{
  ℕ, ◌^◌, ◌≡◌, ◌≢◌, refl, sym, inl, inr, Bool, true, ◌&&◌, if◌then◌else◌, ltb, length, some, none,
  [], ◌∷◌, replicate, arith, Bool-cases, some_injective,
}
use sk_core.Prelude.Bytes.{AllBytes, Bytes, Text, codes}
use mathlib.Core.Path.{subst}
use sk_core.Prelude.Maps.{insert, lookup-insert_self}
use sk_core.Prelude.Outcome.{ok, panic}
use sk_core.DmSession.{DmSession, open_frame}
use sk_core.DmSession.Token.{Base64, Base64Laws, DecodesVec, from_token, to_token}
use sk_core.DmSession.Token.Wire.{wire_blob, wire_blob-Bijective}
use mathlib.Mathlib.Logic.Function.Defs.{Bijective}
use sk_core.DmSession.Token.RoundTrip.{IsWire, from_token-to_token}
use sk_core.DmSession.Token.Parsing.{from_token-ne-panic}
use sk_core.DmSession.Receiving.{open_panics}
use sk_core.Tests.Toy.{toy, toy_laws}
use sk_core.Tests.Sessions.{frame, alice_session}

frame_IsWire : IsWire frame
frame_IsWire = record {
  epoch_u64 = omega arith;
  index_u64 = omega arith;
  nonce_u32 = omega arith;
  body_u32 = omega arith;
  kam_u32 = omega arith;
}

-- A base64 that leaves bytes as they are.
abbrev plain_base64 : Base64
plain_base64 = record { encode = λ b. b; decode = λ t. some t }

plain_base64_laws : Base64Laws plain_base64
plain_base64_laws = record { decode-encode = λ b. refl }

from_token-to_token_example :
    from_token plain_base64 (2 ^ 64) (to_token plain_base64 frame) ≡ ok frame
from_token-to_token_example =
    from_token-to_token (2 ^ 64) plain_base64 (omega arith) plain_base64_laws frame frame_IsWire

-- A base64 that decodes short texts of bytes alone.
abbrev are_bytes : Text → Bool
are_bytes [] = true
are_bytes (b ∷ bs) = ltb b 256 && are_bytes bs

abbrev short_base64 : Base64
short_base64 = record {
  encode = λ b. b;
  decode = λ t. if are_bytes t && ltb (length t) 1000 then some t else none;
}

are_bytes-AllBytes : (t : Text) → are_bytes t ≡ true → AllBytes t
are_bytes-AllBytes [] h = tt
are_bytes-AllBytes (b ∷ bs) h = (ground arith, are_bytes-AllBytes bs (ground arith))

short_base64_vec : DecodesVec (2 ^ 64) short_base64
short_base64_vec = record {
  decoded_bytes =
      λ t b e. let (bytes, _, is) = decoded t b e in subst AllBytes is (are_bytes-AllBytes t bytes);
  decoded_size = λ t b e. let (_, small, is) = decoded t b e in rw (sym is) (ground arith);
}
  where
    decoded :
        (t b : Bytes)
        → short_base64.decode t ≡ some b
        → (are_bytes t ≡ true) × (ltb (length t) 1000 ≡ true) × (t ≡ b)
    decoded t b e = elim (Bool-cases (are_bytes t)) [
      | inr odd ↦ cc (rw odd at e)
      | inl bytes ↦ elim (Bool-cases (ltb (length t) 1000)) [
        | inr long ↦ cc (rw (bytes, long) at e)
        | inl small ↦ (bytes, small, some_injective (rw (bytes, small) at e))
      ]
    ]

from_token-ne-panic_example : from_token short_base64 (2 ^ 64) (codes "pqdr1:???") ≢ panic
from_token-ne-panic_example =
    from_token-ne-panic (2 ^ 64) short_base64 (codes "pqdr1:???") (omega arith) short_base64_vec

wire_blob-Bijective_example : Bijective (wire_blob (2 ^ 64) (omega arith))
wire_blob-Bijective_example = wire_blob-Bijective (2 ^ 64) (omega arith)

-- A session that has stored the frame's epoch.
abbrev bob_session : DmSession ℕ
bob_session = record alice_session { epoch_secrets = insert 5 (replicate 32 1) [] }

open_panics_example :
    (from_token plain_base64 (2 ^ 64) (to_token plain_base64 frame) ≡ ok frame)
    × (open_frame (toy []) bob_session frame [] ≡ (bob_session, panic))
open_panics_example =
    open_panics (toy []) [] (toy_laws []) (2 ^ 64) plain_base64 plain_base64_laws bob_session frame
      (replicate 32 1) (omega arith) frame_IsWire (λ e. absurd (omega arith))
      (lookup-insert_self 5 (replicate 32 1) []) refl
