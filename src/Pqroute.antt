-- ===== src/Pqroute.antt =====
-- src/pqroute.rs: the routing envelope, a plaintext route header over a hybrid-sealed inner part.
pub mod Canonical
pub mod Outer
pub mod RoundTrip
pub mod Tamper
use sk_core.Prelude.{
  ℕ, ◌+◌, ◌%◌, ◌≤◌, ◌^◌, Option, none, some, List, [], ◌∷◌, ◌++◌, length, ltb, ◌==◌, not, take,
}
use sk_core.Prelude.Bytes.{Bytes, codes, u32_be, from_be_bytes}
use sk_core.Prelude.Usize.{usize_add}
use sk_core.Prelude.Outcome.{
  Outcome, ok, ◌>>=◌, ◌>>◌, guard, map_err, ok_or, slice_to, slice, slice_from,
}
use sk_core.Crypto.{Crates}
use sk_core.Crypto.Calls.{hkdf32, encrypt, decrypt}
use sk_core.Json.{Value, SerdeJson}
use sk_core.Kem.{KemError, public_key_len, ciphertext_len, hybrid_encap, hybrid_decap}
use Canonical.{canonical}

abbrev pub route_suite : Bytes
route_suite = codes "pqroute1"

abbrev pub info_wrap : Bytes
info_wrap = codes "skcomms/pqroute/wrap/v1"

abbrev len_prefix : ℕ
len_prefix = 4

abbrev pub wrap_nonce_len : ℕ
wrap_nonce_len = 12

abbrev pub aesgcm_tag_len : ℕ
aesgcm_tag_len = 16

abbrev wrap_key_len : ℕ
wrap_key_len = 32

abbrev pub sealed_min_len : ℕ
sealed_min_len = ciphertext_len + wrap_nonce_len + aesgcm_tag_len

-- The texts of a `Format` error, with the number that each names.
pub data FormatFault : Type 0 where
  bad_public_key : ℕ → FormatFault
  seal_failed : FormatFault
  no_length_prefix : FormatFault
  header_overflow : FormatFault
  header_too_long : FormatFault
  header_not_json : FormatFault
  sealed_too_short : ℕ → FormatFault

-- The texts of an `Open` error.
pub data OpenFault : Type 0 where
  decapsulation_failed : KemError → OpenFault
  open_failed : OpenFault
  inner_truncated : OpenFault
  metadata_out_of_range : OpenFault
  metadata_not_json : OpenFault

pub data PqRouteError : Type 0 where
  format : FormatFault → PqRouteError
  opening : OpenFault → PqRouteError
  kem : KemError → PqRouteError

unfoldable pub build_aad : Bytes → Bytes
build_aad route_canonical = route_suite ++ (b'|' ∷ route_canonical)

-- `hdr_len ‖ route_hdr ‖ rest`: the length is a `u32`, big-endian.
unfoldable pub framed : Bytes → Bytes → Bytes
framed head rest = u32_be (length head) ++ (head ++ rest)

-- The header's bytes and the sealed part, on a target whose `usize` has `usize` values. The length is a
-- `u32`, and the sum is checked.
pub split_outer : ℕ → Bytes → Outcome PqRouteError (Bytes × Bytes)
split_outer usize blob = do
  guard (not (ltb (length blob) len_prefix)) (format no_length_prefix)
  prefix ← slice_to 4 blob
  let end = len_prefix + from_be_bytes prefix % 2 ^ 32
  guard (ltb end usize) (format header_overflow)
  guard (not (ltb (length blob) end)) (format header_too_long)
  route_bytes ← slice len_prefix end blob
  sealed ← slice_from end blob
  ok (route_bytes, sealed)

module _ {N : Type 0} (json : SerdeJson N) (c : Crates) where
  unfoldable pub derive_wrap_key : Bytes → Bytes → Outcome PqRouteError Bytes
  derive_wrap_key shared aad = hkdf32 c [] shared (info_wrap ++ (b'|' ∷ aad))

  -- The first three arguments are draws: the two of the encapsulation, and the nonce.
  pub seal_routed :
      Bytes → Bytes → Bytes → Value N → Bytes → Bytes → Value N → Outcome PqRouteError Bytes
  seal_routed x_eph mlkem_rand nonce inner_metadata content dest_hybrid_pub route_hdr = do
    guard (length dest_hybrid_pub == public_key_len)
        (format (bad_public_key (length dest_hybrid_pub)))
    let route_bytes = canonical json route_hdr
    let inner = framed (canonical json inner_metadata) content
    let aad = build_aad route_bytes
    (ciphertext, shared) ← map_err kem (hybrid_encap c x_eph mlkem_rand dest_hybrid_pub)
    wrap_key ← derive_wrap_key shared aad
    sealed_inner ← encrypt c (format seal_failed) wrap_key nonce aad inner
    ok (framed route_bytes (ciphertext ++ (nonce ++ sealed_inner)))

module _ {N : Type 0} (json : SerdeJson N) (usize : ℕ) where
  pub read_route_header : Bytes → Outcome PqRouteError (Value N)
  read_route_header blob = do
    (route_bytes, _) ← split_outer usize blob
    ok_or (json.from_slice route_bytes) (format header_not_json)

  pub replace_route_header : Bytes → Value N → Outcome PqRouteError Bytes
  replace_route_header blob new_route_hdr = do
    (_, sealed) ← split_outer usize blob
    ok (framed (canonical json new_route_hdr) sealed)

  -- `open_routed` on the decrypted inner part. Here the sum may wrap around.
  pub open_inner : Bytes → Outcome PqRouteError (Value N × Bytes)
  open_inner inner = do
    guard (not (ltb (length inner) len_prefix)) (opening inner_truncated)
    prefix ← slice_to 4 inner
    let meta_end = usize_add usize len_prefix (from_be_bytes prefix % 2 ^ 32)
    guard (not (ltb (length inner) meta_end)) (opening metadata_out_of_range)
    meta_bytes ← slice len_prefix meta_end inner
    content ← slice_from meta_end inner
    inner_metadata ← ok_or (json.from_slice meta_bytes) (opening metadata_not_json)
    ok (inner_metadata, content)

  pub open_routed : Crates → Bytes → Bytes → Outcome PqRouteError (Value N × Value N × Bytes)
  open_routed c blob dest_hybrid_priv = do
    (route_bytes, sealed) ← split_outer usize blob
    guard (not (ltb (length sealed) sealed_min_len)) (format (sealed_too_short (length sealed)))
    route_hdr ← ok_or (json.from_slice route_bytes) (format header_not_json)
    ciphertext ← slice_to ciphertext_len sealed
    nonce ← slice ciphertext_len (ciphertext_len + wrap_nonce_len) sealed
    body ← slice_from (ciphertext_len + wrap_nonce_len) sealed
    let aad = build_aad route_bytes
    shared ←
        map_err (λ e. opening (decapsulation_failed e)) (hybrid_decap c ciphertext dest_hybrid_priv)
    wrap_key ← derive_wrap_key json c shared aad
    inner ← decrypt c (opening open_failed) wrap_key nonce aad body
    (inner_metadata, content) ← open_inner inner
    ok (route_hdr, inner_metadata, content)
