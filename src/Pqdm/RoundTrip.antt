-- ===== src/Pqdm/RoundTrip.antt =====
-- Sealed messages open for their recipient, under the locked suite and parties only.
use sk_core.Prelude.{
  ◌+◌, ◌≤◌, ◌<◌, ◌≡◌, ◌≢◌, inl, inr, none, [], ◌∷◌, ◌++◌, length, take, drop, arith, eq→==, le→ltb,
  lt→ltb, length-take, length-drop,
}
use native.Mathlib.Decide.{dec_lt}
use sk_core.Prelude.Bytes.{Bytes, Text}
use sk_core.Prelude.Outcome.{Outcome, ok, err, ◌>>=◌, map_err, slice_to_in, slice_in, slice_from_in}
use sk_core.Crypto.{Crates, Laws, Fits}
use sk_core.Crypto.Calls.{hkdf32, decrypt, hkdf32_total, decrypt_cases}
use sk_core.Json.{SerdeJson}
use sk_core.Kem.{KemError, hybrid_keypair, bad_length}
use sk_core.Kem.RoundTrip.{hybrid_keypair_lengths}
use sk_core.Kem.Sealing.{sealing}
use sk_core.Kem.Branches.{DecapAnswer, wrong_ciphertext, wrong_key, opened, hybrid_decap_answer}
use sk_core.Pqdm.{
  PqDmError, format, encryption_failed, too_short, downgrade_detected, kem, hybrid_suite, info_wrap,
  downgrade_lock_aad, wrap_key, seal, open_sealed,
}

-- How `open_sealed` answers.
pub data OpenAnswer (sealed priv : Bytes) (suite : Text) : Outcome PqDmError Bytes → Type 0 where
  short :
      length sealed < 1148 → OpenAnswer sealed priv suite (err (format (too_short (length sealed))))
  wrong_private :
      1148 ≤ length sealed
      → length priv ≢ 2432
      → OpenAnswer sealed priv suite
          (err (kem (bad_length "hybrid private key" 2432 (length priv))))
  detected :
      1148 ≤ length sealed
      → length priv ≡ 2432
      → OpenAnswer sealed priv suite (err (downgrade_detected suite))
  plain :
      (body : Bytes)
      → 1148 ≤ length sealed
      → length priv ≡ 2432
      → OpenAnswer sealed priv suite (ok body)

module _ (c : Crates) (laws : Laws c) {N : Type 0} (json : SerdeJson N) where
  -- Whatever the blob, the key and the names, `open_sealed` does not panic: a short blob and a wrong
  -- key length are reported, and every other failure is `DowngradeDetected` with the expected suite.
  pub open_sealed_answer :
      (sealed priv : Bytes) (sender recipient suite : Text)
      → OpenAnswer sealed priv suite (open_sealed c json sealed priv sender recipient suite)
  unfolding open_sealed wrap_key
  open_sealed_answer sealed priv sender recipient suite = elim (dec_lt (length sealed) 1148) [
    | yes bad ↦ rw (lt→ltb (length sealed) 1148 bad) (short bad)
    | no good ↦
        let size : 1148 ≤ length sealed = omega arith in
        rw
          (
            le→ltb (length sealed) 1148 size,
            slice_to_in 1120 sealed (omega arith),
            slice_in 1120 1132 sealed (omega arith) (omega arith),
            slice_from_in 1132 sealed (omega arith),
          )
          (decapsulated size _ (hybrid_decap_answer c laws.hkdf laws.kem (take 1120 sealed) priv))
  ]
    where
      aad : Bytes
      aad = downgrade_lock_aad json suite sender recipient none

      decapsulated :
          (size : 1148 ≤ length sealed) (o : Outcome KemError Bytes)
          → DecapAnswer (take 1120 sealed) priv o
          → OpenAnswer sealed priv suite (
              map_err kem o >>= λ shared. hkdf32 c [] shared (info_wrap ++ (b'|' ∷ aad)) >>= λ key.
              decrypt c
                (downgrade_detected suite)
                key
                (take 12 (drop 1120 sealed))
                aad
                (drop 1132 sealed))
      decapsulated size o (wrong_ciphertext bad) =
          absurd (bad (omega (arith, length-take 1120 sealed)))
      decapsulated size o (wrong_key _ bad) = wrong_private size bad
      decapsulated size o (opened shared _ fine _) =
          let (key, k, _) =
            hkdf32_total c {E = PqDmError} laws.hkdf [] shared (info_wrap ++ (b'|' ∷ aad)) in
          let nonce_12 : length (take 12 (drop 1120 sealed)) ≡ 12 =
            omega (arith, length-take 12 (drop 1120 sealed), length-drop 1120 sealed) in
          rw k
            (elim (decrypt_cases c {E = PqDmError} laws.aead (downgrade_detected suite) key _ aad
              (drop 1132 sealed) nonce_12) [
                | inl (body, e) ↦ rw e (plain body size fine)
                | inr e ↦ rw e (detected size fine)
              ])

  module _ (x_seed mlkem_seed x_eph mlkem_rand nonce plaintext : Bytes)
      (sender recipient : Text) where
    -- A message sealed to a public key made from a seed of 32 bytes, with a nonce of 12 bytes and
    -- lengths that AES-GCM takes, opens with the private key under the hybrid suite and the same
    -- parties; the blob is 1148 bytes longer than the message.
    pub open_sealed-seal :
        length x_seed ≡ 32
        → length nonce ≡ 12
        → Fits plaintext
        → Fits (downgrade_lock_aad json hybrid_suite sender recipient none)
        → let kp = hybrid_keypair c x_seed mlkem_seed in
          (sealed : Bytes) × (seal c json x_eph mlkem_rand nonce plaintext kp.public_key sender
              recipient
            ≡ ok sealed)
          × (open_sealed c json sealed kp.private_key sender recipient hybrid_suite ≡ ok plaintext)
          × (length sealed ≡ length plaintext + 1148)
    unfolding seal open_sealed wrap_key
    open_sealed-seal hs hn hp ha =
        let aad = downgrade_lock_aad json hybrid_suite sender recipient none in
        let s =
          sealing c laws (format encryption_failed) (downgrade_detected hybrid_suite) x_seed
            mlkem_seed x_eph mlkem_rand (info_wrap ++ (b'|' ∷ aad)) aad nonce plaintext hs hn ha
            hp in
        (
          s.ct ++ (nonce ++ s.body),
          rw (
            eq→== (length (hybrid_keypair c x_seed mlkem_seed).public_key) 1216
                (hybrid_keypair_lengths c laws.hkdf laws.kem x_seed mlkem_seed hs).0,
            s.encap,
            s.derived,
            s.sealed,
          ),
          rw (
            le→ltb (length (s.ct ++ (nonce ++ s.body))) 1148 (omega (arith, s.length-blob)),
            s.first,
            s.second,
            s.third,
            s.decap,
            s.derived,
            s.opened,
          ),
          s.length-blob,
        )
