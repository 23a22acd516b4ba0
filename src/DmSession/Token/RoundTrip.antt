-- ===== src/DmSession/Token/RoundTrip.antt =====
-- A token that `to_token` wrote parses back to its frame.
use sk_core.Prelude.{
  ℕ, zero, suc, ◌+◌, ◌%◌, ◌^◌, ◌≤◌, ◌<◌, ◌≡◌, refl, ap, Option, none, some, List, [], ◌∷◌, ◌++◌,
  length, drop, arith, le→ltb, length-drop, length-append, take-append, drop-append, eq→==,
}
use mathlib.Core.List.{append-nil}
use native.Mathlib.Nat.{add-sub_cancel_left, zero-add, suc-add}
use sk_core.Prelude.Bytes.{
  Bytes, u64_be, u32_be, be_bytes, from_be_bytes-be_bytes, length-be_bytes, IsU64, IsU32,
}
use sk_core.Prelude.Maps.{strip_prefix-append}
use sk_core.Prelude.Outcome.{ok, slice_in}
use sk_core.Prelude.Usize.{usize_add-fits}
use sk_core.DmSession.{SealedDmFrame, pqdr_scheme}
use sk_core.DmSession.Token.{
  Base64, Base64Laws, kam_bytes, frame_blob, take_chunk, take_int, take_kam, parse_blob, to_token,
  from_token,
}

pub drop_add {ℓ} : {A : Type ℓ} (n m : ℕ) (b : List A) → drop (n + m) b ≡ drop m (drop n b)
drop_add zero m b = rw (zero-add m)
drop_add (suc n) zero [] = rw (suc-add n 0)
drop_add (suc n) (suc m) [] = rw (suc-add n (suc m))
drop_add (suc n) m (x ∷ b) = rw (suc-add n m) (drop_add n m b)

-- The cursor `off` stands before `rest`.
abbrev pub At : Bytes → ℕ → Bytes → Type 0
At blob off rest = (off ≤ length blob) × (drop off blob ≡ rest)

abbrev pub KamFits : Option Bytes → Type 0
KamFits none = Unit {0}
KamFits (some kam) = IsU32 (length kam)

-- Where the sums of the cursor do not wrap around.
module _ (usize : ℕ) (blob : Bytes) (in_memory : length blob < usize) where
  take_chunk-At :
      (chunk rest : Bytes) (off n : ℕ)
      → length chunk ≡ n
      → At blob off (chunk ++ rest)
      → (take_chunk usize blob off n ≡ ok (chunk, off + n)) × At blob (off + n) rest
  unfolding take_chunk
  take_chunk-At chunk rest off n l (h, d) =
      let size : off + n ≤ length blob =
        omega (arith, length-drop off blob, ap length d, length-append chunk rest) in
      (
        rw (
          usize_add-fits usize off n (omega arith),
          le→ltb (length blob) (off + n) size,
          slice_in off (off + n) blob (omega arith) size,
          d,
          add-sub_cancel_left off n,
          take-append n chunk rest l,
        ),
        (size, rw (drop_add off n blob, d) (drop-append n chunk rest l)),
      )

  pub take_int-At :
      (w n : ℕ) (rest : Bytes) (off : ℕ)
      → n < 256 ^ w
      → At blob off (be_bytes w n ++ rest)
      → (take_int usize blob off w ≡ ok (n, off + w)) × At blob (off + w) rest
  unfolding take_int
  take_int-At w n rest off h cur =
      let (e, next) = take_chunk-At (be_bytes w n) rest off w (length-be_bytes w n) cur in
      (rw (e, from_be_bytes-be_bytes w n h), next)

  -- A length, written as a `u32`, and the bytes that it counts.
  take_sized-At :
      (chunk rest : Bytes) (off : ℕ)
      → IsU32 (length chunk)
      → At blob off (u32_be (length chunk) ++ (chunk ++ rest))
      → (take_int usize blob off 4 ≡ ok (length chunk, off + 4))
        × (take_chunk usize blob (off + 4) (length chunk) ≡ ok (chunk, off + 4 + length chunk))
        × At blob (off + 4 + length chunk) rest
  take_sized-At chunk rest off h cur =
      let fits : length chunk % 2 ^ 32 ≡ length chunk = omega arith in
      let (e, next) =
        take_int-At 4 (length chunk) (chunk ++ rest) off (omega arith) (rw fits at cur) in
      let (e', last) = take_chunk-At chunk rest (off + 4) (length chunk) refl next in (e, e', last)

  take_kam-At :
      (kam : Option Bytes) (off : ℕ)
      → KamFits kam
      → At blob off (kam_bytes kam)
      → (flag : ℕ) × (end : ℕ) × (take_int usize blob off 1 ≡ ok (flag, off + 1))
        × (take_kam usize blob (off + 1) flag ≡ ok (kam, end))
        × (end ≡ length blob)
  unfolding kam_bytes take_kam be_bytes
  take_kam-At none off h cur =
      let (e, (last, d)) = take_int-At 1 0 [] off (omega arith) cur in
      (0, off + 1, e, refl, omega (arith, length-drop (off + 1) blob, ap length d))
  take_kam-At (some kam) off h cur =
      let (e, next) = take_int-At 1 1 (u32_be (length kam) ++ kam) off (omega arith) cur in
      let (e', e'', (last, d)) = take_sized-At kam [] (off + 1) h (rw (append-nil kam) next) in
      (
        1,
        off + 1 + 4 + length kam,
        e,
        rw (e', e''),
        omega (arith, length-drop (off + 1 + 4 + length kam) blob, ap length d),
      )

-- Every number of the frame fits the integer that the token keeps it in.
pub record IsWire (f : SealedDmFrame) : Type 0 where
  pub epoch_u64 : IsU64 f.epoch
  pub index_u64 : IsU64 f.index
  pub nonce_u32 : IsU32 (length f.nonce)
  pub body_u32 : IsU32 (length f.body)
  pub kam_u32 : KamFits f.kam

length-kam_bytes : (kam : Option Bytes) → KamFits kam → length (kam_bytes kam) < 2 ^ 32 + 5
unfolding kam_bytes
length-kam_bytes none h = omega arith
length-kam_bytes (some kam) h =
    omega (arith, length-append (u32_be (length kam)) kam, length-be_bytes 4 (length kam % 2 ^ 32))

-- A binary has three parts that a `u32` counts, so its length is below 2^34.
length-frame_blob : (f : SealedDmFrame) → IsWire f → length (frame_blob f) < 2 ^ 34
unfolding frame_blob
length-frame_blob f w =
    let kam = kam_bytes f.kam in
    let at_body = f.body ++ kam in
    let at_nonce = f.nonce ++ (u32_be (length f.body) ++ at_body) in
    let at_index = u64_be f.index ++ (u32_be (length f.nonce) ++ at_nonce) in
    let n = w.nonce_u32 in
    let b = w.body_u32 in
    omega (
      arith,
      length-kam_bytes f.kam w.kam_u32,
      length-append f.body kam,
      length-append (u32_be (length f.body)) at_body,
      length-append f.nonce (u32_be (length f.body) ++ at_body),
      length-append (u32_be (length f.nonce)) at_nonce,
      length-append (u64_be f.index) (u32_be (length f.nonce) ++ at_nonce),
      length-append (u64_be f.epoch) at_index,
      length-be_bytes 8 f.epoch,
      length-be_bytes 8 f.index,
      length-be_bytes 4 (length f.nonce % 2 ^ 32),
      length-be_bytes 4 (length f.body % 2 ^ 32),
    )

pub parse_blob-frame_blob :
    (usize : ℕ) (f : SealedDmFrame)
    → 2 ^ 34 ≤ usize
    → IsWire f
    → parse_blob usize (frame_blob f) ≡ ok f
unfolding parse_blob frame_blob
parse_blob-frame_blob usize f wide w =
    let blob = frame_blob f in
    let long = length-frame_blob f w in
    let mem : length blob < usize = omega arith in
    let (a, p1) = take_int-At usize blob mem 8 f.epoch _ 0 w.epoch_u64 (omega arith, refl) in
    let (b, p2) = take_int-At usize blob mem 8 f.index _ 8 w.index_u64 p1 in
    let (n, n', p3) = take_sized-At usize blob mem f.nonce _ 16 w.nonce_u32 p2 in
    let (m, m', p4) =
      take_sized-At usize blob mem f.body _ (16 + 4 + length f.nonce) w.body_u32 p3 in
    let (flag, end, k, k', last) =
      take_kam-At usize blob mem f.kam (16 + 4 + length f.nonce + 4 + length f.body) w.kam_u32 p4 in
    rw (a, b, n, n', m, m', k, k', eq→== end (length blob) last)

-- Let the numbers and lengths of a frame fit the integers that its token keeps them in, and let `usize`
-- have at least 2^34 values, as on 64-bit targets. The token that `to_token` writes parses back to the
-- frame, the KAM's presence included.
pub from_token-to_token :
    (usize : ℕ) (b64 : Base64)
    → 2 ^ 34 ≤ usize
    → Base64Laws b64
    → (f : SealedDmFrame) → IsWire f
    → from_token b64 usize (to_token b64 f) ≡ ok f
unfolding from_token to_token
from_token-to_token usize b64 wide laws f w = rw (
  strip_prefix-append pqdr_scheme (b64.encode (frame_blob f)),
  laws.decode-encode (frame_blob f),
  parse_blob-frame_blob usize f wide w,
)
