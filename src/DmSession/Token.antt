-- ===== src/DmSession/Token.antt =====
-- The `pqdr1:` token of a sealed frame.
pub mod RoundTrip
pub mod Parsing
pub mod Inversion
pub mod Wire
mod Narrow
use sk_core.Prelude.{
  ℕ, zero, suc, ◌+◌, ◌*◌, ◌%◌, ◌^◌, ◌-◌, ◌≤◌, ◌<◌, ◌≡◌, ◌≢◌, refl, ap, sym, ◌∙◌, Option, none, some,
  List, [], ◌∷◌, ◌++◌, length, take, drop, ltb, ◌==◌, if◌then◌else◌, not, arith, le→ltb, le→leb,
}
use sk_core.Prelude.Bytes.{Bytes, Text, u64_be, u32_be, from_be_bytes, AllBytes}
use sk_core.Prelude.Usize.{usize_add}
use sk_core.Prelude.Maps.{strip_prefix}
use sk_core.Prelude.Outcome.{Outcome, ok, err, panic, ◌>>=◌, ◌>>◌, guard, ok_or, slice}
use sk_core.DmSession.{
  SealedDmFrame, DmSessionError, bad_token, not_a_token, invalid_base64, truncated,
  invalid_kam_flag, trailing_bytes, pqdr_scheme,
}

-- The base64 crate's `STANDARD` engine.
pub record Base64 : Type 0 where
  pub encode : Bytes → Text
  pub decode : Text → Option Bytes

-- Decoding inverts encoding.
pub record Base64Laws (b64 : Base64) : Type 0 where
  pub decode-encode : (b : Bytes) → b64.decode (b64.encode b) ≡ some b

-- What decoding gives is a `Vec<u8>`: bytes, and no more than `isize::MAX` of them.
pub record DecodesVec (usize : ℕ) (b64 : Base64) : Type 0 where
  pub decoded_bytes : (t : Text) (b : Bytes) → b64.decode t ≡ some b → AllBytes b
  pub decoded_size : (t : Text) (b : Bytes) → b64.decode t ≡ some b → 2 * length b < usize

unfoldable pub kam_bytes : Option Bytes → Bytes
kam_bytes none = 0 ∷ []
kam_bytes (some kam) = 1 ∷ (u32_be (length kam) ++ kam)

-- The binary that `to_token` builds.
unfoldable pub frame_blob : SealedDmFrame → Bytes
unfolding kam_bytes
frame_blob f =
    u64_be f.epoch
    ++ (u64_be f.index
        ++ (u32_be (length f.nonce)
            ++ (f.nonce ++ (u32_be (length f.body) ++ (f.body ++ kam_bytes f.kam)))))

-- `usize` is the number of values of the type on the target; a sum of them wraps around.
module _ (usize : ℕ) where
  -- `take!`: the chunk of `n` bytes at the cursor, and the cursor behind it.
  pub take_chunk : Bytes → ℕ → ℕ → Outcome DmSessionError (Bytes × ℕ)
  take_chunk blob off n =
      let end = usize_add usize off n in
      if ltb (length blob) end
      then err (bad_token truncated)
      else (slice off end blob >>= λ chunk. ok (chunk, end))

  -- `from_be_bytes(take!(n))`.
  pub take_int : Bytes → ℕ → ℕ → Outcome DmSessionError (ℕ × ℕ)
  unfolding take_chunk
  take_int blob off n = do (chunk, off') ← take_chunk blob off n; ok (from_be_bytes chunk, off')

  -- The KAM behind its presence flag.
  pub take_kam : Bytes → ℕ → ℕ → Outcome DmSessionError (Option Bytes × ℕ)
  unfolding take_chunk take_int
  take_kam blob off zero = ok (none, off)
  take_kam blob off (suc zero) = do
    (kam_len, off') ← take_int blob off 4
    (kam, off'') ← take_chunk blob off' kam_len
    ok (some kam, off'')
  take_kam blob off other = err (bad_token (invalid_kam_flag other))

  -- The part of `from_token` behind the base64.
  pub parse_blob : Bytes → Outcome DmSessionError SealedDmFrame
  unfolding take_chunk take_int take_kam
  parse_blob blob = do
    (epoch, o1) ← take_int blob 0 8
    (index, o2) ← take_int blob o1 8
    (nonce_len, o3) ← take_int blob o2 4
    (nonce, o4) ← take_chunk blob o3 nonce_len
    (body_len, o5) ← take_int blob o4 4
    (body, o6) ← take_chunk blob o5 body_len
    (kam_flag, o7) ← take_int blob o6 1
    (kam, o8) ← take_kam blob o7 kam_flag
    guard (o8 == length blob) (bad_token trailing_bytes)
    ok (record { epoch = epoch; index = index; nonce = nonce; body = body; kam = kam })

module _ (b64 : Base64) where
  pub to_token : SealedDmFrame → Text
  to_token f = pqdr_scheme ++ b64.encode (frame_blob f)

  pub from_token : ℕ → Text → Outcome DmSessionError SealedDmFrame
  from_token usize token = do
    body ← ok_or (strip_prefix pqdr_scheme token) (bad_token not_a_token)
    blob ← ok_or (b64.decode body) (bad_token invalid_base64)
    parse_blob usize blob
