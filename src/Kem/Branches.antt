-- ===== src/Kem/Branches.antt =====
-- Every input of the KEM has a definite answer, and none makes it panic.
use sk_core.Prelude.{◌≡◌, ◌≢◌, inl, inr, ◌++◌, length, take, drop, arith, length-drop, Option-cases}
use sk_core.Prelude.Bytes.{Bytes}
use sk_core.Prelude.Outcome.{Outcome, ok, err, panic, slice_to_in, slice_from_in}
use sk_core.Crypto.{Crates, KemLaws, HkdfLaws}
use sk_core.Kem.{KemError, bad_length, mlkem, hybrid_encap, hybrid_decap}
use sk_core.Kem.RoundTrip.{expect_len_ok, expect_len_bad, combine_total}
use native.Mathlib.Decide.{ℕ_discrete}

-- How `hybrid_encap` answers.
pub data EncapAnswer (pk : Bytes) : Outcome KemError (Bytes × Bytes) → Type 0 where
  wrong_length :
      length pk ≢ 1216 → EncapAnswer pk (err (bad_length "hybrid public key" 1216 (length pk)))
  rejected : length pk ≡ 1216 → EncapAnswer pk (err (mlkem "encapsulation failed"))
  sealed : (ct ss : Bytes) → length pk ≡ 1216 → length ss ≡ 32 → EncapAnswer pk (ok (ct, ss))

-- How `hybrid_decap` answers: the ciphertext's length is tested first.
pub data DecapAnswer (ct sk : Bytes) : Outcome KemError Bytes → Type 0 where
  wrong_ciphertext :
      length ct ≢ 1120 → DecapAnswer ct sk (err (bad_length "hybrid ciphertext" 1120 (length ct)))
  wrong_key :
      length ct ≡ 1120
      → length sk ≢ 2432
      → DecapAnswer ct sk (err (bad_length "hybrid private key" 2432 (length sk)))
  opened :
      (ss : Bytes)
      → length ct ≡ 1120
      → length sk ≡ 2432
      → length ss ≡ 32
      → DecapAnswer ct sk (ok ss)

module _ (c : Crates) (hkdf : HkdfLaws c) where
  -- `hybrid_encap` reports a wrong length, passes ML-KEM's rejection on, or gives 32 secret bytes.
  hybrid_encap_answer : (eph r pk : Bytes) → EncapAnswer pk (hybrid_encap c eph r pk)
  unfolding hybrid_encap
  hybrid_encap_answer eph r pk = elim (ℕ_discrete (length pk) 1216) [
    | no bad ↦ rw (expect_len_bad "hybrid public key" pk 1216 bad) (wrong_length bad)
    | yes good ↦
        rw
          (
            expect_len_ok "hybrid public key" pk 1216 good,
            slice_to_in 32 pk (omega arith),
            slice_from_in 32 pk (omega arith),
            expect_len_ok "ML-KEM public key" (drop 32 pk) 1184 (omega (arith, length-drop 32 pk)),
          )
          (elim (Option-cases (c.mlkem_encapsulate (drop 32 pk) r)) [
            | inl e ↦ rw e (rejected good)
            | inr ((ct, pss), e) ↦
                let (ss, k, l) =
                  combine_total c hkdf {E = KemError} (c.x25519_shared eph (take 32 pk)) pss in
                rw (e, k) (sealed (c.x25519_public eph ++ ct) ss good l)
          ])
  ]

  -- `hybrid_decap` reports a wrong length, and otherwise always gives 32 secret bytes: a tampered
  -- ciphertext is no error.
  pub hybrid_decap_answer :
      (kem : KemLaws c) (ct sk : Bytes) → DecapAnswer ct sk (hybrid_decap c ct sk)
  unfolding hybrid_decap
  hybrid_decap_answer kem ct sk = elim (ℕ_discrete (length ct) 1120) [
    | no bad ↦ rw (expect_len_bad "hybrid ciphertext" ct 1120 bad) (wrong_ciphertext bad)
    | yes good ↦
        rw (expect_len_ok "hybrid ciphertext" ct 1120 good) (elim (ℕ_discrete (length sk) 2432) [
          | no bad ↦ rw (expect_len_bad "hybrid private key" sk 2432 bad) (wrong_key good bad)
          | yes fine ↦
              let hd : length (drop 32 sk) ≡ 2400 = omega (arith, length-drop 32 sk) in
              let hc : length (drop 32 ct) ≡ 1088 = omega (arith, length-drop 32 ct) in
              let (pss, e) = kem.implicit_rejection (drop 32 sk) (drop 32 ct) hd hc in
              let (ss, k, l) =
                combine_total c hkdf {E = KemError} (c.x25519_shared (take 32 sk) (take 32 ct))
                  pss in
              rw
                (
                  expect_len_ok "hybrid private key" sk 2432 fine,
                  slice_to_in 32 ct (omega arith),
                  slice_from_in 32 ct (omega arith),
                  slice_to_in 32 sk (omega arith),
                  slice_from_in 32 sk (omega arith),
                  expect_len_ok "ML-KEM secret key" (drop 32 sk) 2400 hd,
                  expect_len_ok "ML-KEM ciphertext" (drop 32 ct) 1088 hc,
                  e,
                  k,
                )
                (opened ss good fine l)
        ])
  ]

  DecapAnswer-ne-panic :
      (ct sk : Bytes) (o : Outcome KemError Bytes) → DecapAnswer ct sk o → o ≢ panic
  DecapAnswer-ne-panic ct sk o (wrong_ciphertext _) = λ p. cc
  DecapAnswer-ne-panic ct sk o (wrong_key _ _) = λ p. cc
  DecapAnswer-ne-panic ct sk o (opened _ _ _ _) = λ p. cc

  pub hybrid_decap-ne-panic : (kem : KemLaws c) (ct sk : Bytes) → hybrid_decap c ct sk ≢ panic
  hybrid_decap-ne-panic kem ct sk = DecapAnswer-ne-panic ct sk _ (hybrid_decap_answer kem ct sk)
