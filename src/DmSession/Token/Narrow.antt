-- ===== src/DmSession/Token/Narrow.antt =====
-- The parser where `usize` has 32 bits.
use sk_core.Prelude.{ℕ, ◌+◌, ◌^◌, ◌≤◌, ◌<◌, ◌≡◌, refl, ◌++◌, length, arith, length-append}
use sk_core.Prelude.Bytes.{Bytes, u64_be, be_bytes, IsU64, length-be_bytes}
use sk_core.Prelude.Maps.{strip_prefix-append}
use sk_core.Prelude.Outcome.{panic}
use sk_core.DmSession.{pqdr_scheme}
use sk_core.DmSession.Token.{Base64, Base64Laws, parse_blob, from_token}
use sk_core.DmSession.Token.RoundTrip.{take_int-At}
use sk_core.DmSession.Token.Inversion.{take_chunk_wraps}

-- The beginning of a binary: epoch, index, and the length of a nonce.
abbrev head_blob : ℕ → ℕ → ℕ → Bytes → Bytes
head_blob epoch index nonce_len rest =
    u64_be epoch ++ (u64_be index ++ (be_bytes 4 nonce_len ++ rest))

length-head_blob :
    (epoch index n : ℕ) (rest : Bytes) → length (head_blob epoch index n rest) ≡ 20 + length rest
length-head_blob epoch index n rest =
    let at_index = u64_be index ++ (be_bytes 4 n ++ rest) in
    omega (
      arith,
      length-append (be_bytes 4 n) rest,
      length-append (u64_be index) (be_bytes 4 n ++ rest),
      length-append (u64_be epoch) at_index,
      length-be_bytes 8 epoch,
      length-be_bytes 8 index,
      length-be_bytes 4 n,
    )

-- Let a binary begin with an epoch, an index and a length of at least 2^32 - 20 for the nonce, and fit a
-- memory of 2^32 bytes. With a `usize` of 32 bits, its token makes `from_token` panic.
from_token_panics :
    (b64 : Base64)
    → Base64Laws b64
    → (epoch index n : ℕ) (rest : Bytes) → IsU64 epoch
    → IsU64 index
    → n < 2 ^ 32
    → 2 ^ 32 ≤ 20 + n
    → 20 + length rest < 2 ^ 32
    → from_token b64 (2 ^ 32) (pqdr_scheme ++ b64.encode (head_blob epoch index n rest)) ≡ panic
unfolding from_token parse_blob
from_token_panics b64 laws epoch index n rest he hi hn wraps held =
    let blob = head_blob epoch index n rest in
    let size = length-head_blob epoch index n rest in
    let mem : length blob < 2 ^ 32 = omega arith in
    let (a, p1) = take_int-At (2 ^ 32) blob mem 8 epoch _ 0 he (omega arith, refl) in
    let (b, p2) = take_int-At (2 ^ 32) blob mem 8 index _ 8 hi p1 in
    let (m, p3) = take_int-At (2 ^ 32) blob mem 4 n rest 16 (omega arith) p2 in
    rw (
      strip_prefix-append pqdr_scheme (b64.encode blob),
      laws.decode-encode blob,
      a,
      b,
      m,
      take_chunk_wraps (2 ^ 32) blob 20 n (omega arith) (omega arith) (omega arith) wraps,
    )
