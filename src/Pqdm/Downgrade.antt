-- ===== src/Pqdm/Downgrade.antt =====
-- A blob does not open under another suite or other parties than it was sealed under.
use sk_core.Prelude.{◌≡◌, ◌≢◌, sym, none, [], ◌∷◌, ◌++◌, length, drop, arith, eq→==, le→ltb}
use mathlib.Core.Path.{subst}
use sk_core.Prelude.Bytes.{Bytes, Text}
use sk_core.Prelude.Outcome.{ok, err}
use sk_core.Crypto.{Crates, Laws, Fits}
use sk_core.Crypto.Calls.{hkdf32_total, decrypt_elsewhere, OnlyUnder}
use sk_core.Json.{SerdeJson, JsonLaws}
use sk_core.Kem.{hybrid_keypair}
use sk_core.Kem.RoundTrip.{hybrid_keypair_lengths}
use sk_core.Kem.Sealing.{Sealing, body_drop, sealing}
use sk_core.Pqdm.{
  PqDmError, format, encryption_failed, downgrade_detected, hybrid_suite, info_wrap,
  downgrade_lock_aad, wrap_key, seal, open_sealed,
}
use sk_core.Pqdm.Lock.{downgrade_lock_aad_injective}

module _ (c : Crates) (laws : Laws c) {N : Type 0} (json : SerdeJson N) where
  module _ (x_seed mlkem_seed x_eph mlkem_rand nonce plaintext : Bytes) (sender recipient : Text)
      (seed_32 : length x_seed ≡ 32) (nonce_12 : length nonce ≡ 12) (fits : Fits plaintext)
      (aad_fits : Fits (downgrade_lock_aad json hybrid_suite sender recipient none)) where
    abbrev pub locked : Bytes
    locked = downgrade_lock_aad json hybrid_suite sender recipient none

    abbrev pub parts :
        Sealing c PqDmError
          (format encryption_failed)
          (format encryption_failed)
          x_seed
          mlkem_seed
          x_eph
          mlkem_rand
          (info_wrap ++ (b'|' ∷ locked))
          locked
          nonce
          plaintext
    parts =
        sealing c laws (format encryption_failed) (format encryption_failed) x_seed mlkem_seed x_eph
          mlkem_rand (info_wrap ++ (b'|' ∷ locked)) locked nonce plaintext seed_32 nonce_12 aad_fits
          fits

    abbrev pub blob : Bytes
    blob = parts.ct ++ (nonce ++ parts.body)

    pub seal-blob :
        seal c json x_eph mlkem_rand nonce plaintext
          (hybrid_keypair c x_seed mlkem_seed).public_key
          sender
          recipient
        ≡ ok blob
    unfolding seal wrap_key
    seal-blob = rw (
      eq→== (length (hybrid_keypair c x_seed mlkem_seed).public_key) 1216
          (hybrid_keypair_lengths c laws.hkdf laws.kem x_seed mlkem_seed seed_32).0,
      parts.encap,
      parts.derived,
      parts.sealed,
    )

    open_blob_elsewhere :
        (sender' recipient' suite : Text)
        → downgrade_lock_aad json suite sender' recipient' none ≢ locked
        → OnlyUnder c locked nonce parts.body
        → open_sealed c json blob
            (hybrid_keypair c x_seed mlkem_seed).private_key
            sender'
            recipient'
            suite
          ≡ err (downgrade_detected suite)
    unfolding open_sealed wrap_key
    open_blob_elsewhere sender' recipient' suite ne only =
        let aad' = downgrade_lock_aad json suite sender' recipient' none in
        let (key, k, _) =
          hkdf32_total c {E = PqDmError} laws.hkdf [] parts.shared (info_wrap ++ (b'|' ∷ aad')) in
        rw (
          le→ltb (length blob) 1148 (omega (arith, parts.length-blob)),
          parts.first,
          parts.second,
          parts.third,
          parts.decap,
          k,
          decrypt_elsewhere c {E = PqDmError} laws.aead (downgrade_detected suite) key nonce locked
              aad' parts.body nonce_12 only ne,
        )

    -- Let a blob be sealed by `seal`, with lengths that AES-GCM takes, to a key made from a seed of
    -- 32 bytes, and let its ciphertext open under no AAD but its own. Opened with the right key but
    -- under another suite, sender or recipient, it gives `DowngradeDetected`.
    pub open_sealed_downgraded :
        (json_laws : JsonLaws json) (sealed : Bytes) (sender' recipient' suite : Text)
        → seal c json x_eph mlkem_rand nonce plaintext
            (hybrid_keypair c x_seed mlkem_seed).public_key
            sender
            recipient
          ≡ ok sealed
        → OnlyUnder c
            (downgrade_lock_aad json hybrid_suite sender recipient none)
            nonce
            (drop 1132 sealed)
        → ¬ ((suite ≡ hybrid_suite) × (sender' ≡ sender) × (recipient' ≡ recipient))
        → open_sealed c json sealed
            (hybrid_keypair c x_seed mlkem_seed).private_key
            sender'
            recipient'
            suite
          ≡ err (downgrade_detected suite)
    open_sealed_downgraded json_laws sealed sender' recipient' suite e only differs =
        let is : blob ≡ sealed = cc seal-blob in
        rw (← is) (
          open_blob_elsewhere sender' recipient' suite
            (λ same_aad. differs (
              downgrade_lock_aad_injective json json_laws suite sender' recipient' hybrid_suite
                sender recipient same_aad))
            (subst (OnlyUnder c locked nonce)
              (body_drop parts.ct nonce parts.body (omega (arith, parts.length-ct)))
              (subst (λ b. OnlyUnder c locked nonce (drop 1132 b)) (sym is) only)))
