-- ===== src/Pqroute/Tamper.antt =====
-- What a relay may do to the header: any change but of the order of entries is noticed.
use sk_core.Prelude.{
  ℕ, ◌≤◌, ◌<◌, ◌^◌, ◌≡◌, ◌≢◌, refl, ap, Option, [], ◌∷◌, ◌++◌, length, arith, le→ltb, drop,
  append-eq_parts, ◌∙◌,
}
use mathlib.Core.Path.{subst}
use sk_core.Prelude.Bytes.{Bytes}
use sk_core.Prelude.Outcome.{ok, err}
use sk_core.Crypto.{Crates, Laws, Fits}
use sk_core.Crypto.Calls.{hkdf32_total, decrypt_elsewhere, OnlyUnder}
use sk_core.Json.{Value, SerdeJson}
use sk_core.Kem.{hybrid_keypair}
use sk_core.Kem.Sealing.{body_drop}
use sk_core.Pqroute.{
  PqRouteError, route_suite, opening, open_failed, info_wrap, build_aad, framed, split_outer,
  derive_wrap_key, seal_routed, open_routed, read_route_header, replace_route_header,
}
use sk_core.Pqroute.Canonical.{canonical}
use sk_core.Pqroute.Canonical.Normal.{normal, IsJson, NumberLaws}
use sk_core.Pqroute.Canonical.Faithful.{canonical_iff}
use sk_core.Pqroute.Outer.{split_outer-framed}
use sk_core.Pqroute.RoundTrip.{Reads, parts, seal_routed-framed}

build_aad_injective : (h h' : Bytes) → build_aad h ≡ build_aad h' → h ≡ h'
unfolding build_aad
build_aad_injective h h' e =
    (append-eq_parts (route_suite ++ (b'|' ∷ [])) (route_suite ++ (b'|' ∷ [])) h h' refl e).1

module _ (c : Crates) (laws : Laws c) {N : Type 0} (json : SerdeJson N) where
  module _ (x_seed mlkem_seed x_eph mlkem_rand nonce content : Bytes)
      (inner_metadata route_hdr new_hdr : Value N) (seed_32 : length x_seed ≡ 32)
      (nonce_12 : length nonce ≡ 12)
      (inner_fits : Fits (framed (canonical json inner_metadata) content))
      (aad_fits : Fits (build_aad (canonical json route_hdr))) (usize : ℕ)
      (wide : 2 ^ 33 ≤ usize) where
    -- The sealed part opens under the AAD of no other header.
    replaced_fails :
        Reads json new_hdr
        → length (canonical json new_hdr) < 2 ^ 32
        → canonical json new_hdr ≢ canonical json route_hdr
        → let s =
            parts c laws json x_seed mlkem_seed x_eph mlkem_rand nonce content inner_metadata
              route_hdr seed_32 nonce_12 inner_fits aad_fits in
          OnlyUnder c (build_aad (canonical json route_hdr)) nonce s.body
          → open_routed json usize c
              (framed (canonical json new_hdr) (s.ct ++ (nonce ++ s.body)))
              (hybrid_keypair c x_seed mlkem_seed).private_key
            ≡ err (opening open_failed)
    unfolding open_routed derive_wrap_key
    replaced_fails reads short' differs only =
        let s =
          parts c laws json x_seed mlkem_seed x_eph mlkem_rand nonce content inner_metadata
            route_hdr seed_32 nonce_12 inner_fits aad_fits in
        let aad' = build_aad (canonical json new_hdr) in
        let (key, k, _) =
          hkdf32_total c {E = PqRouteError} laws.hkdf [] s.shared (info_wrap ++ (b'|' ∷ aad')) in
        rw (
          split_outer-framed usize (canonical json new_hdr) (s.ct ++ (nonce ++ s.body)) wide short',
          le→ltb (length (s.ct ++ (nonce ++ s.body))) 1148 (omega (arith, s.length-blob)),
          reads,
          s.first,
          s.second,
          s.third,
          s.decap,
          k,
          decrypt_elsewhere c {E = PqRouteError} laws.aead (opening open_failed) key nonce
              (build_aad (canonical json route_hdr)) aad' s.body nonce_12 only
              (λ same.
                differs
                  (build_aad_injective (canonical json new_hdr) (canonical json route_hdr) same)),
        )

    -- A header with another canonical text is noticed.
    open_routed-replace_route_header :
        Reads json new_hdr
        → length (canonical json route_hdr) < 2 ^ 32
        → length (canonical json new_hdr) < 2 ^ 32
        → canonical json new_hdr ≢ canonical json route_hdr
        → let kp = hybrid_keypair c x_seed mlkem_seed in
          (blob : Bytes)
          → seal_routed json c x_eph mlkem_rand nonce inner_metadata content kp.public_key route_hdr
            ≡ ok blob
          → ((sealed : Bytes)
              → split_outer usize blob ≡ ok (canonical json route_hdr, sealed)
              → OnlyUnder c (build_aad (canonical json route_hdr)) nonce (drop 1132 sealed))
          → (blob' : Bytes) × (replace_route_header json usize blob new_hdr ≡ ok blob')
            × (read_route_header json usize blob' ≡ ok new_hdr)
            × (open_routed json usize c blob' kp.private_key ≡ err (opening open_failed))
    unfolding read_route_header replace_route_header
    open_routed-replace_route_header reads short short' differs blob sealing_ok only =
        let s =
          parts c laws json x_seed mlkem_seed x_eph mlkem_rand nonce content inner_metadata
            route_hdr seed_32 nonce_12 inner_fits aad_fits in
        let sealed = s.ct ++ (nonce ++ s.body) in
        let is : blob ≡ framed (canonical json route_hdr) sealed = cc (
          seal_routed-framed c laws json x_seed mlkem_seed x_eph mlkem_rand nonce content
            inner_metadata route_hdr seed_32 nonce_12 inner_fits aad_fits) in
        let split =
          ap (split_outer usize) is
          ∙ split_outer-framed usize (canonical json route_hdr) sealed wide short in
        (
          framed (canonical json new_hdr) sealed,
          rw split,
          rw (split_outer-framed usize (canonical json new_hdr) sealed wide short', reads),
          replaced_fails reads short' differs (
              subst (OnlyUnder c (build_aad (canonical json route_hdr)) nonce)
                (body_drop s.ct nonce s.body (omega (arith, s.length-ct))) (only sealed split)),
        )

    -- Let a relay replace the header of a routed blob by one that differs in more than the order of its
    -- entries. The blob was sealed with a nonce of 12 bytes to a key made from a seed of 32 bytes, the
    -- canonical texts of both headers are shorter than 2^32 bytes, and the inner part and the AAD have
    -- lengths that AES-GCM takes. The texts of numbers can be read back, both headers have texts of Unicode
    -- scalar values and objects without double keys, and serde_json reads back the text of the new one.
    -- The sealed part opens under no AAD but its own, and `usize` has at least 2^33 values, as on 64-bit
    -- targets. The new header is then what `read_route_header` shows, and opening with the right key gives
    -- the `Open` error.
    pub open_routed-changed_header :
        (read_number : Bytes → Option N)
        → NumberLaws json read_number
        → IsJson route_hdr
        → IsJson new_hdr
        → normal new_hdr ≢ normal route_hdr
        → Reads json new_hdr
        → length (canonical json route_hdr) < 2 ^ 32
        → length (canonical json new_hdr) < 2 ^ 32
        → let kp = hybrid_keypair c x_seed mlkem_seed in
          (blob : Bytes)
          → seal_routed json c x_eph mlkem_rand nonce inner_metadata content kp.public_key route_hdr
            ≡ ok blob
          → ((sealed : Bytes)
              → split_outer usize blob ≡ ok (canonical json route_hdr, sealed)
              → OnlyUnder c (build_aad (canonical json route_hdr)) nonce (drop 1132 sealed))
          → (blob' : Bytes) × (replace_route_header json usize blob new_hdr ≡ ok blob')
            × (read_route_header json usize blob' ≡ ok new_hdr)
            × (open_routed json usize c blob' kp.private_key ≡ err (opening open_failed))
    open_routed-changed_header read_number numbers h h' differs reads short short' =
        open_routed-replace_route_header reads short short'
          (λ e. differs ((canonical_iff json read_number numbers new_hdr route_hdr h' h).0 e))
