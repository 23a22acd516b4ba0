-- ===== src/Pqroute/RoundTrip.antt =====
-- A routed blob opens for its destination, and a relay can read its header.
use sk_core.Prelude.{
  ℕ, ◌≤◌, ◌<◌, ◌^◌, ◌≡◌, ◌≢◌, inl, inr, some, [], ◌∷◌, ◌++◌, length, arith, eq→==, le→ltb, lt→ltb,
  take, drop, length-take, length-drop, Option-cases,
}
use native.Mathlib.Decide.{dec_lt}
use sk_core.Prelude.Bytes.{Bytes}
use sk_core.Prelude.Outcome.{
  Outcome, ok, panic, ◌>>=◌, slice_to_in, slice_in, slice_from_in, >>=-ne-panic, map_err-ne-panic,
}
use sk_core.Crypto.{Crates, Laws, Fits}
use sk_core.Crypto.Calls.{decrypt, hkdf32_total, decrypt_cases}
use sk_core.Json.{Value, SerdeJson}
use sk_core.Kem.{hybrid_keypair}
use sk_core.Kem.RoundTrip.{hybrid_keypair_lengths}
use sk_core.Kem.Sealing.{Sealing, sealing}
use sk_core.Kem.Branches.{hybrid_decap-ne-panic}
use sk_core.Pqroute.{
  PqRouteError, format, opening, seal_failed, open_failed, info_wrap, build_aad, framed, open_inner,
  derive_wrap_key, seal_routed, open_routed, read_route_header,
}
use sk_core.Pqroute.Canonical.{canonical}
use sk_core.Pqroute.Outer.{
  split_outer-framed, open_inner-framed, split_outer_cases, open_inner-ne-panic,
}

-- serde_json reads the canonical text of `v` as `v`.
abbrev pub Reads : {N : Type 0} → SerdeJson N → Value N → Type 0
Reads json v = json.from_slice (canonical json v) ≡ some v

module _ (c : Crates) (laws : Laws c) {N : Type 0} (json : SerdeJson N) where
  module _ (x_seed mlkem_seed x_eph mlkem_rand nonce content : Bytes)
      (inner_metadata route_hdr : Value N) (seed_32 : length x_seed ≡ 32)
      (nonce_12 : length nonce ≡ 12)
      (inner_fits : Fits (framed (canonical json inner_metadata) content))
      (aad_fits : Fits (build_aad (canonical json route_hdr))) where
    abbrev pub locked : Bytes
    locked = build_aad (canonical json route_hdr)

    abbrev pub parts :
        Sealing c PqRouteError
          (format seal_failed)
          (opening open_failed)
          x_seed
          mlkem_seed
          x_eph
          mlkem_rand
          (info_wrap ++ (b'|' ∷ locked))
          locked
          nonce
          (framed (canonical json inner_metadata) content)
    parts =
        sealing c laws (format seal_failed) (opening open_failed) x_seed mlkem_seed x_eph mlkem_rand
          (info_wrap ++ (b'|' ∷ locked)) locked nonce
          (framed (canonical json inner_metadata) content) seed_32 nonce_12 aad_fits inner_fits

    abbrev sealed_part : Bytes
    sealed_part = parts.ct ++ (nonce ++ parts.body)

    pub seal_routed-framed :
        seal_routed json c x_eph mlkem_rand nonce inner_metadata content
          (hybrid_keypair c x_seed mlkem_seed).public_key
          route_hdr
        ≡ ok (framed (canonical json route_hdr) sealed_part)
    unfolding seal_routed derive_wrap_key
    seal_routed-framed = rw (
      eq→== (length (hybrid_keypair c x_seed mlkem_seed).public_key) 1216
          (hybrid_keypair_lengths c laws.hkdf laws.kem x_seed mlkem_seed seed_32).0,
      parts.encap,
      parts.derived,
      parts.sealed,
    )

    -- Let two JSON texts be shorter than 2^32 bytes and be read back by serde_json, let the lengths
    -- be those that AES-GCM takes, the nonce's 12 bytes, and let `usize` have at least 2^33 values,
    -- as on 64-bit targets. A blob routed to a key made from a seed of 32 bytes
    -- opens with the private key to the header, the metadata and the content that were sealed, and
    -- `read_route_header` gives the same header without any key.
    pub open_routed-seal_routed :
        (usize : ℕ)
        → 2 ^ 33 ≤ usize
        → Reads json route_hdr
        → Reads json inner_metadata
        → length (canonical json route_hdr) < 2 ^ 32
        → length (canonical json inner_metadata) < 2 ^ 32
        → let kp = hybrid_keypair c x_seed mlkem_seed in
          (blob : Bytes) × (seal_routed json c x_eph mlkem_rand nonce inner_metadata content
              kp.public_key route_hdr
            ≡ ok blob)
          × (read_route_header json usize blob ≡ ok route_hdr)
          × (open_routed json usize c blob kp.private_key ≡ ok (route_hdr, inner_metadata, content))
    unfolding open_routed read_route_header derive_wrap_key
    open_routed-seal_routed usize wide reads_head reads_meta short_head short_meta = (
      framed (canonical json route_hdr) sealed_part,
      seal_routed-framed,
      rw (
        split_outer-framed usize (canonical json route_hdr) sealed_part wide short_head,
        reads_head,
      ),
      rw (
        split_outer-framed usize (canonical json route_hdr) sealed_part wide short_head,
        le→ltb (length sealed_part) 1148 (omega (arith, parts.length-blob)),
        reads_head,
        parts.first,
        parts.second,
        parts.third,
        parts.decap,
        parts.derived,
        parts.opened,
        open_inner-framed usize (canonical json inner_metadata) content wide short_meta json
            inner_metadata reads_meta,
      ),
    )

  abbrev with_header : Value N → Value N × Bytes → Outcome PqRouteError (Value N × Value N × Bytes)
  with_header hdr parts = ok (hdr, parts.0, parts.1)

  -- Where `usize` has at least 2^33 values, as on 64-bit targets, `open_routed` returns whatever the blob
  -- and the key: it never panics.
  pub open_routed-ne-panic :
      (usize : ℕ) (blob priv : Bytes) → 2 ^ 33 ≤ usize → open_routed json usize c blob priv ≢ panic
  unfolding open_routed derive_wrap_key
  open_routed-ne-panic usize blob priv wide = elim (split_outer_cases usize blob) [
    | inr (e, failed) ↦ rw failed (λ p. cc)
    | inl ((head, sealed), split) ↦ rw split (elim (dec_lt (length sealed) 1148) [
      | yes bad ↦ rw (lt→ltb (length sealed) 1148 bad) (λ p. cc)
      | no good ↦
          let size : 1148 ≤ length sealed = omega arith in
          elim (Option-cases (json.from_slice head)) [
            | inl unread ↦ rw (le→ltb (length sealed) 1148 size, unread) (λ p. cc)
            | inr (hdr, read) ↦
                rw
                  (
                    le→ltb (length sealed) 1148 size,
                    read,
                    slice_to_in 1120 sealed (omega arith),
                    slice_in 1120 1132 sealed (omega arith) (omega arith),
                    slice_from_in 1132 sealed (omega arith),
                  )
                  (>>=-ne-panic _ _
                    (map_err-ne-panic _ _
                      (hybrid_decap-ne-panic c laws.hkdf laws.kem (take 1120 sealed) priv))
                    (λ shared _. decrypted head sealed hdr shared size))
          ]
    ])
  ]
    where
      decrypted :
          (head sealed : Bytes) (hdr : Value N) (shared : Bytes)
          → 1148 ≤ length sealed
          → (derive_wrap_key json c shared (build_aad head) >>= λ key.
              decrypt c
                (opening open_failed)
                key
                (take 12 (drop 1120 sealed))
                (build_aad head)
                (drop 1132 sealed)
              >>= λ inner. open_inner json usize inner >>= with_header hdr)
            ≢ panic
      decrypted head sealed hdr shared size =
          let (key, k, _) =
            hkdf32_total c {E = PqRouteError} laws.hkdf [] shared
              (info_wrap ++ (b'|' ∷ build_aad head)) in
          let nonce_12 : length (take 12 (drop 1120 sealed)) ≡ 12 =
            omega (arith, length-take 12 (drop 1120 sealed), length-drop 1120 sealed) in
          rw k
            (elim (decrypt_cases c {E = PqRouteError} laws.aead (opening open_failed) key _
              (build_aad head) (drop 1132 sealed) nonce_12) [
                | inl (inner, e) ↦
                    rw e
                      (>>=-ne-panic _ _ (open_inner-ne-panic json usize inner wide) (λ _ _ p. cc))
                | inr e ↦ rw e (λ p. cc)
              ])
