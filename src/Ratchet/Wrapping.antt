-- ===== src/Ratchet/Wrapping.antt =====
-- Epoch secrets survive the trip to the peer, and no payload makes `unwrap_dm_epoch_secret` panic.
use sk_core.Prelude.{
  ◌≡◌, ◌≢◌, inl, inr, [], ◌++◌, length, take, drop, length-take, length-drop, arith, eq→==, ne→==,
  ◌==◌,
}
use sk_core.Prelude.Bytes.{Bytes}
use sk_core.Prelude.Outcome.{
  Outcome, ok, err, ◌>>=◌, ◌>>◌, guard, map_err, slice_to_in, slice_in, slice_from_in,
}
use sk_core.Crypto.{Crates, Laws}
use sk_core.Crypto.Calls.{hkdf32, decrypt, hkdf32_total, decrypt_cases}
use sk_core.Kem.{KemError, hybrid_keypair, bad_length}
use sk_core.Kem.RoundTrip.{hybrid_keypair_lengths}
use sk_core.Kem.Sealing.{sealing}
use sk_core.Kem.Branches.{DecapAnswer, wrong_ciphertext, wrong_key, opened, hybrid_decap_answer}
use sk_core.Ratchet.{
  RatchetError, bad_payload_len, kem, unwrap_failed, dm_wrap_key, wrap_dm_epoch_secret,
  unwrap_dm_epoch_secret, info_dm_wrap,
}
use native.Mathlib.Decide.{ℕ_discrete}

-- How `unwrap_dm_epoch_secret` answers.
pub data UnwrapAnswer (payload priv : Bytes) : Outcome RatchetError Bytes → Type 0 where
  wrong_payload :
      length payload ≢ 1180 → UnwrapAnswer payload priv (err (bad_payload_len (length payload)))
  wrong_private :
      length payload ≡ 1180
      → length priv ≢ 2432
      → UnwrapAnswer payload priv (err (kem (bad_length "hybrid private key" 2432 (length priv))))
  refused :
      length payload ≡ 1180 → length priv ≡ 2432 → UnwrapAnswer payload priv (err unwrap_failed)
  recovered :
      (secret : Bytes)
      → length payload ≡ 1180
      → length priv ≡ 2432
      → length secret ≡ 32
      → UnwrapAnswer payload priv (ok secret)

module _ (c : Crates) (laws : Laws c) where
  -- An epoch secret of 32 bytes wrapped, with a nonce of 12 bytes, to a public key made from a seed
  -- of 32 bytes gives a payload of 1180 bytes, and the private key unwraps it to the same secret.
  pub unwrap-wrap_dm_epoch_secret :
      (x_seed mlkem_seed x_eph mlkem_rand nonce secret : Bytes)
      → length x_seed ≡ 32
      → length nonce ≡ 12
      → length secret ≡ 32
      → let kp = hybrid_keypair c x_seed mlkem_seed in
        (payload : Bytes) × (wrap_dm_epoch_secret c x_eph mlkem_rand nonce secret kp.public_key
          ≡ ok payload)
        × (unwrap_dm_epoch_secret c payload kp.private_key ≡ ok secret)
        × (length payload ≡ 1180)
  unfolding wrap_dm_epoch_secret unwrap_dm_epoch_secret dm_wrap_key
  unwrap-wrap_dm_epoch_secret x_seed mlkem_seed x_eph mlkem_rand nonce secret hs hn hl =
      let s =
        sealing c laws unwrap_failed unwrap_failed x_seed mlkem_seed x_eph mlkem_rand info_dm_wrap
          [] nonce secret hs hn (omega arith) (omega arith) in
      (
        s.ct ++ (nonce ++ s.body),
        rw (
          eq→== (length secret) 32 hl,
          eq→== (length (hybrid_keypair c x_seed mlkem_seed).public_key) 1216
              (hybrid_keypair_lengths c laws.hkdf laws.kem x_seed mlkem_seed hs).0,
          s.encap,
          s.derived,
          s.sealed,
        ),
        rw (
          eq→== (length (s.ct ++ (nonce ++ s.body))) 1180 (omega (arith, s.length-blob)),
          s.first,
          s.second,
          s.third,
          s.decap,
          s.derived,
          s.opened,
          eq→== (length secret) 32 hl,
        ),
        omega (arith, s.length-blob),
      )

  -- The part of `unwrap_dm_epoch_secret` after the decapsulation.
  unwrap_tail :
      (payload priv key nonce wrapped : Bytes)
      → length payload ≡ 1180
      → length priv ≡ 2432
      → length nonce ≡ 12
      → UnwrapAnswer payload priv (
          decrypt c unwrap_failed key nonce [] wrapped >>= λ plain.
          guard (length plain == 32) unwrap_failed >> ok plain)
  unwrap_tail payload priv key nonce wrapped hp hk hn =
      elim (decrypt_cases c laws.aead unwrap_failed key nonce [] wrapped hn) [
        | inr e ↦ rw e (refused hp hk)
        | inl (plain, e) ↦ elim (ℕ_discrete (length plain) 32) [
          | yes l ↦ rw (e, eq→== (length plain) 32 l) (recovered plain hp hk l)
          | no l ↦ rw (e, ne→== (length plain) 32 l) (refused hp hk)
        ]
      ]

  -- Whatever the payload and the key, `unwrap_dm_epoch_secret` does not panic: it reports the length
  -- that is wrong, or gives 32 bytes, or the one error that does not tell the cause.
  pub unwrap_dm_epoch_secret_answer :
      (payload priv : Bytes) → UnwrapAnswer payload priv (unwrap_dm_epoch_secret c payload priv)
  unfolding unwrap_dm_epoch_secret dm_wrap_key
  unwrap_dm_epoch_secret_answer payload priv = elim (ℕ_discrete (length payload) 1180) [
    | no bad ↦ rw (ne→== (length payload) 1180 bad) (wrong_payload bad)
    | yes good ↦
        rw
          (
            eq→== (length payload) 1180 good,
            slice_to_in 1120 payload (omega arith),
            slice_in 1120 1132 payload (omega arith) (omega arith),
            slice_from_in 1132 payload (omega arith),
          )
          (decapsulated good _ (hybrid_decap_answer c laws.hkdf laws.kem (take 1120 payload) priv))
  ]
    where
      decapsulated :
          (good : length payload ≡ 1180) (o : Outcome KemError Bytes)
          → DecapAnswer (take 1120 payload) priv o
          → UnwrapAnswer payload priv (
              map_err kem o >>= λ shared. hkdf32 c [] shared info_dm_wrap >>= λ key.
              decrypt c unwrap_failed key (take 12 (drop 1120 payload)) [] (drop 1132 payload)
              >>= λ plain. guard (length plain == 32) unwrap_failed >> ok plain)
      decapsulated good o (wrong_ciphertext bad) =
          absurd (bad (omega (arith, length-take 1120 payload)))
      decapsulated good o (wrong_key _ bad) = wrong_private good bad
      decapsulated good o (opened shared _ fine _) =
          let (key, k, _) = hkdf32_total c {E = RatchetError} laws.hkdf [] shared info_dm_wrap in
          rw k (
            unwrap_tail payload priv key _ _ good fine
              (omega (arith, length-take 12 (drop 1120 payload), length-drop 1120 payload)))
