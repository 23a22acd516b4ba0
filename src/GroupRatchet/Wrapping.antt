-- ===== src/GroupRatchet/Wrapping.antt =====
-- Every member unwraps the one epoch secret of the group, and no payload makes the unwrapping panic.
use sk_core.Prelude.{
  ℕ, ◌≡◌, ◌≢◌, refl, inl, inr, List, [], ◌∷◌, ◌++◌, length, take, drop, length-take, length-drop,
  arith, eq→==, ne→==, ◌==◌,
}
use sk_core.Prelude.Bytes.{Bytes}
use sk_core.Prelude.Outcome.{
  Outcome, ok, err, ◌>>=◌, ◌>>◌, guard, map_err, slice_to_in, slice_in, slice_from_in,
}
use sk_core.Crypto.{Crates, Laws}
use sk_core.Crypto.Calls.{hkdf32, decrypt, hkdf32_total, decrypt_cases}
use sk_core.Kem.{KemError, hybrid_keypair}
use sk_core.Kem.RoundTrip.{hybrid_keypair_lengths}
use sk_core.Kem.Sealing.{sealing}
use sk_core.Kem.Branches.{DecapAnswer, wrong_ciphertext, wrong_key, opened, hybrid_decap_answer}
use sk_core.GroupRatchet.{
  GroupRatchetError, bad_secret_len, bad_payload_len, bad_private_key_len, kem, unwrap_failed,
  derive_wrap_key, wrap_epoch_secret, unwrap_epoch_secret, epoch_wrap_info,
}
use native.Mathlib.Decide.{ℕ_discrete}

-- How `unwrap_epoch_secret` answers: a plaintext of another length than 32 is reported by its length.
pub data UnwrapAnswer (payload priv : Bytes) : Outcome GroupRatchetError Bytes → Type 0 where
  wrong_payload :
      length payload ≢ 1180 → UnwrapAnswer payload priv (err (bad_payload_len (length payload)))
  wrong_private :
      length payload ≡ 1180
      → length priv ≢ 2432
      → UnwrapAnswer payload priv (err (bad_private_key_len (length priv)))
  refused :
      length payload ≡ 1180 → length priv ≡ 2432 → UnwrapAnswer payload priv (err unwrap_failed)
  wrong_secret :
      (n : ℕ)
      → length payload ≡ 1180
      → length priv ≡ 2432
      → n ≢ 32
      → UnwrapAnswer payload priv (err (bad_secret_len n))
  recovered :
      (secret : Bytes)
      → length payload ≡ 1180
      → length priv ≡ 2432
      → length secret ≡ 32
      → UnwrapAnswer payload priv (ok secret)

-- A member's key seeds and the three draws of the wrap made for that member.
pub record Member : Type 0 where
  pub x_seed : Bytes
  pub mlkem_seed : Bytes
  pub x_eph : Bytes
  pub mlkem_rand : Bytes
  pub nonce : Bytes
  pub x_seed_32 : length x_seed ≡ 32
  pub nonce_12 : length nonce ≡ 12

module _ (c : Crates) where
  -- The payloads of one epoch, one wrap for each member in turn.
  pub distribute : Bytes → List Member → Outcome GroupRatchetError (List Bytes)
  distribute secret [] = ok []
  distribute secret (m ∷ ms) = do
    payload ←
        wrap_epoch_secret c m.x_eph m.mlkem_rand m.nonce secret
          (hybrid_keypair c m.x_seed m.mlkem_seed).public_key
    rest ← distribute secret ms
    ok (payload ∷ rest)

  -- Each payload is unwrapped to the secret by the member at its place.
  abbrev pub AllUnwrap : Bytes → List Member → List Bytes → Type 0
  AllUnwrap secret [] [] = Unit {0}
  AllUnwrap secret [] (p ∷ ps) = ⊥
  AllUnwrap secret (m ∷ ms) [] = ⊥
  AllUnwrap secret (m ∷ ms) (p ∷ ps) =
      (unwrap_epoch_secret c p (hybrid_keypair c m.x_seed m.mlkem_seed).private_key ≡ ok secret)
      × (length p ≡ 1180)
      × AllUnwrap secret ms ps

  module _ (laws : Laws c) where
    unwrap-wrap_epoch_secret :
        (m : Member) (secret : Bytes)
        → length secret ≡ 32
        → let kp = hybrid_keypair c m.x_seed m.mlkem_seed in
          (payload : Bytes) × (wrap_epoch_secret c m.x_eph m.mlkem_rand m.nonce secret kp.public_key
            ≡ ok payload)
          × (unwrap_epoch_secret c payload kp.private_key ≡ ok secret)
          × (length payload ≡ 1180)
    unfolding wrap_epoch_secret unwrap_epoch_secret derive_wrap_key
    unwrap-wrap_epoch_secret m secret hl =
        let s =
          sealing c laws unwrap_failed unwrap_failed m.x_seed m.mlkem_seed m.x_eph m.mlkem_rand
            epoch_wrap_info [] m.nonce secret m.x_seed_32 m.nonce_12 (omega arith) (omega arith) in
        let lengths =
          hybrid_keypair_lengths c laws.hkdf laws.kem m.x_seed m.mlkem_seed m.x_seed_32 in
        (
          s.ct ++ (m.nonce ++ s.body),
          rw (
            eq→== (length secret) 32 hl,
            eq→== (length (hybrid_keypair c m.x_seed m.mlkem_seed).public_key) 1216 lengths.0,
            s.encap,
            s.derived,
            s.sealed,
          ),
          rw (
            eq→== (length (s.ct ++ (m.nonce ++ s.body))) 1180 (omega (arith, s.length-blob)),
            eq→== (length (hybrid_keypair c m.x_seed m.mlkem_seed).private_key) 2432 lengths.1,
            s.first,
            s.second,
            s.third,
            s.decap,
            s.derived,
            s.opened,
            eq→== (length secret) 32 hl,
          ),
          omega (arith, s.length-blob),
        )

    -- Distributing an epoch secret of 32 bytes succeeds for every list of members, and every member
    -- unwraps the payload made for it, of 1180 bytes, to that one secret.
    pub distribute-AllUnwrap :
        (secret : Bytes) (ms : List Member)
        → length secret ≡ 32
        → (payloads : List Bytes) × (distribute secret ms ≡ ok payloads)
          × AllUnwrap secret ms payloads
    unfolding distribute
    distribute-AllUnwrap secret [] h = ([], refl, tt)
    distribute-AllUnwrap secret (m ∷ ms) h =
        let (p, w, u, l) = unwrap-wrap_epoch_secret m secret h in
        let (ps, d, all) = distribute-AllUnwrap secret ms h in (p ∷ ps, rw (w, d), (u, l, all))

    unwrap_tail :
        (payload priv key nonce wrapped : Bytes)
        → length payload ≡ 1180
        → length priv ≡ 2432
        → length nonce ≡ 12
        → UnwrapAnswer payload priv (
            decrypt c unwrap_failed key nonce [] wrapped >>= λ plain.
            guard (length plain == 32) (bad_secret_len (length plain)) >> ok plain)
    unwrap_tail payload priv key nonce wrapped hp hk hn =
        elim (decrypt_cases c laws.aead unwrap_failed key nonce [] wrapped hn) [
          | inr e ↦ rw e (refused hp hk)
          | inl (plain, e) ↦ elim (ℕ_discrete (length plain) 32) [
            | yes l ↦ rw (e, eq→== (length plain) 32 l) (recovered plain hp hk l)
            | no l ↦ rw (e, ne→== (length plain) 32 l) (wrong_secret (length plain) hp hk l)
          ]
        ]

    -- Whatever the payload and the key, `unwrap_epoch_secret` does not panic: it reports the first
    -- length that is wrong, fails to authenticate, or gives 32 bytes.
    unwrap_epoch_secret_answer :
        (payload priv : Bytes) → UnwrapAnswer payload priv (unwrap_epoch_secret c payload priv)
    unfolding unwrap_epoch_secret derive_wrap_key
    unwrap_epoch_secret_answer payload priv = elim (ℕ_discrete (length payload) 1180) [
      | no bad ↦ rw (ne→== (length payload) 1180 bad) (wrong_payload bad)
      | yes good ↦ rw (eq→== (length payload) 1180 good) (elim (ℕ_discrete (length priv) 2432) [
        | no bad ↦ rw (ne→== (length priv) 2432 bad) (wrong_private good bad)
        | yes fine ↦
            rw
              (
                eq→== (length priv) 2432 fine,
                slice_to_in 1120 payload (omega arith),
                slice_in 1120 1132 payload (omega arith) (omega arith),
                slice_from_in 1132 payload (omega arith),
              )
              (decapsulated good fine _
                (hybrid_decap_answer c laws.hkdf laws.kem (take 1120 payload) priv))
      ])
    ]
      where
        decapsulated :
            (good : length payload ≡ 1180) (fine : length priv ≡ 2432) (o : Outcome KemError Bytes)
            → DecapAnswer (take 1120 payload) priv o
            → UnwrapAnswer payload priv (
                map_err kem o >>= λ shared. hkdf32 c [] shared epoch_wrap_info >>= λ key.
                decrypt c unwrap_failed key (take 12 (drop 1120 payload)) [] (drop 1132 payload)
                >>= λ plain. guard (length plain == 32) (bad_secret_len (length plain)) >> ok plain)
        decapsulated good fine o (wrong_ciphertext bad) =
            absurd (bad (omega (arith, length-take 1120 payload)))
        decapsulated good fine o (wrong_key _ bad) = absurd (bad fine)
        decapsulated good fine o (opened shared _ _ _) =
            let (key, k, _) =
              hkdf32_total c {E = GroupRatchetError} laws.hkdf [] shared epoch_wrap_info in
            rw k (
              unwrap_tail payload priv key _ _ good fine
                (omega (arith, length-take 12 (drop 1120 payload), length-drop 1120 payload)))
