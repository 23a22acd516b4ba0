-- ===== src/Kem/RoundTrip.antt =====
-- What a keypair encapsulates, it decapsulates; and every input of the KEM has a definite answer.
use sk_core.Prelude.{
  ℕ, ◌≡◌, ◌≢◌, some, [], ◌++◌, String, length, arith, length-append, eq→==, ne→==,
}
use sk_core.Prelude.Bytes.{Bytes}
use sk_core.Prelude.Outcome.{ok, err, ◌>>=◌, slice_to-append, slice_from-append}
use sk_core.Crypto.{Crates, KemLaws, HkdfLaws}
use sk_core.Kem.{
  KemError, bad_length, expect_len, combine, hybrid_keypair, hybrid_encap, hybrid_decap, hkdf_info,
}

pub expect_len_ok : (what : String) (b : Bytes) (n : ℕ) → length b ≡ n → expect_len what b n ≡ ok tt
unfolding expect_len
expect_len_ok what b n h = rw (eq→== (length b) n h)

pub expect_len_bad :
    (what : String) (b : Bytes) (n : ℕ)
    → length b ≢ n
    → expect_len what b n ≡ err (bad_length what n (length b))
unfolding expect_len
expect_len_bad what b n h = rw (ne→== (length b) n h)

module _ (c : Crates) (hkdf : HkdfLaws c) where
  -- The combiner always gives 32 bytes.
  pub combine_total :
      {E : Type 0} (x m : Bytes) → (ss : Bytes) × (combine c {E = E} x m ≡ ok ss) × (length ss ≡ 32)
  unfolding combine
  combine_total x m =
      let (okm, e, l) = hkdf.expands [] (x ++ m) hkdf_info 32 (omega arith) in (okm, rw e, l)

  module _ (kem : KemLaws c) where
    -- One branch of `hybrid_decap` with the parts of its arguments at hand.
    hybrid_decap_parts :
        (x_pub ct seed dk ss : Bytes)
        → length x_pub ≡ 32
        → length ct ≡ 1088
        → length seed ≡ 32
        → length dk ≡ 2400
        → c.mlkem_decapsulate dk ct ≡ some ss
        → hybrid_decap c (x_pub ++ ct) (seed ++ dk) ≡ combine c (c.x25519_shared seed x_pub) ss
    unfolding hybrid_decap
    hybrid_decap_parts x_pub ct seed dk ss hx hc hs hd e = rw (
      expect_len_ok _ (x_pub ++ ct) 1120 (omega (arith, length-append x_pub ct)),
      expect_len_ok _ (seed ++ dk) 2432 (omega (arith, length-append seed dk)),
      slice_to-append x_pub ct hx,
      slice_from-append x_pub ct hx,
      slice_to-append seed dk hs,
      slice_from-append seed dk hs,
      expect_len_ok _ dk 2400 hd,
      expect_len_ok _ ct 1088 hc,
      e,
    )

    hybrid_encap_parts :
        (eph r x_pub ek ct ss : Bytes)
        → length x_pub ≡ 32
        → length ek ≡ 1184
        → c.mlkem_encapsulate ek r ≡ some (ct, ss)
        → hybrid_encap c eph r (x_pub ++ ek) ≡ (
            combine c (c.x25519_shared eph x_pub) ss >>= λ shared.
            ok (c.x25519_public eph ++ ct, shared))
    unfolding hybrid_encap
    hybrid_encap_parts eph r x_pub ek ct ss hx he e = rw (
      expect_len_ok _ (x_pub ++ ek) 1216 (omega (arith, length-append x_pub ek)),
      slice_to-append x_pub ek hx,
      slice_from-append x_pub ek hx,
      expect_len_ok _ ek 1184 he,
      e,
    )

    -- To a keypair generated from an X25519 seed of 32 bytes every encapsulation succeeds, with a
    -- ciphertext of 1120 bytes and a secret of 32, and decapsulating that ciphertext with the
    -- private key gives the same secret.
    pub hybrid_decap-encap :
        (x_seed mlkem_seed x_eph mlkem_rand : Bytes)
        → length x_seed ≡ 32
        → let kp = hybrid_keypair c x_seed mlkem_seed in
          (ct ss : Bytes) × (hybrid_encap c x_eph mlkem_rand kp.public_key ≡ ok (ct, ss))
          × (hybrid_decap c ct kp.private_key ≡ ok ss)
          × (length ct ≡ 1120)
          × (length ss ≡ 32)
    unfolding hybrid_keypair
    hybrid_decap-encap x_seed mlkem_seed x_eph mlkem_rand hs =
        let (ct, pss, e, d, l) = kem.recovers mlkem_seed mlkem_rand in
        let (ss, k, ls) =
          combine_total {E = KemError} (c.x25519_shared x_eph (c.x25519_public x_seed)) pss in
        (
          c.x25519_public x_eph ++ ct,
          ss,
          rw (
            hybrid_encap_parts x_eph mlkem_rand (c.x25519_public x_seed) _ ct pss
                (kem.length-public x_seed) (kem.length-ek mlkem_seed) e,
            k,
          ),
          rw (
            hybrid_decap_parts (c.x25519_public x_eph) ct x_seed _ pss (kem.length-public x_eph) l
                hs (kem.length-dk mlkem_seed) d,
            kem.agree x_seed x_eph,
            k,
          ),
          omega (arith, length-append (c.x25519_public x_eph) ct, kem.length-public x_eph),
          ls,
        )

    -- The composite lengths of a generated keypair.
    pub hybrid_keypair_lengths :
        (x_seed mlkem_seed : Bytes)
        → length x_seed ≡ 32
        → let kp = hybrid_keypair c x_seed mlkem_seed in
          (length kp.public_key ≡ 1216) × (length kp.private_key ≡ 2432)
    unfolding hybrid_keypair
    hybrid_keypair_lengths x_seed mlkem_seed h = (
      omega (
        arith,
        length-append (c.x25519_public x_seed) (c.mlkem_generate mlkem_seed).1,
        kem.length-public x_seed,
        kem.length-ek mlkem_seed,
      ),
      omega (arith, length-append x_seed (c.mlkem_generate mlkem_seed).0, kem.length-dk mlkem_seed),
    )
