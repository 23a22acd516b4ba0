-- ===== src/Crypto/Calls.antt =====
-- The forms in which the sources call HKDF and AES-256-GCM, with their `expect`s and `map_err`s.
use sk_core.Prelude.{◌+◌, ◌≡◌, ◌≢◌, ◌⊎◌, inl, inr, none, length, arith, Option-cases}
use sk_core.Prelude.Bytes.{Bytes}
use sk_core.Prelude.Outcome.{Outcome, ok, err, panic, ◌>>=◌, ok_or, expect}
use sk_core.Crypto.{Crates, HkdfLaws, AeadLaws, Fits}

module _ (c : Crates) {E : Type 0} where
  -- `Hkdf::<Sha256>::new(Some(salt), ikm)`, then `expand(info, &mut [0u8; 32]).expect(…)`.
  unfoldable pub hkdf32 : Bytes → Bytes → Bytes → Outcome E Bytes
  hkdf32 salt ikm info = expect (c.hkdf_sha256 salt ikm info 32)

  -- `Aes256Gcm::new(key).encrypt(Nonce::from_slice(nonce), …).map_err(|_| e)`, and `decrypt`.
  unfoldable pub encrypt : E → Bytes → Bytes → Bytes → Bytes → Outcome E Bytes
  encrypt e key nonce aad msg = do
    n ← expect (c.nonce_from_slice nonce)
    ok_or (c.aes_gcm_encrypt key n aad msg) e

  unfoldable pub decrypt : E → Bytes → Bytes → Bytes → Bytes → Outcome E Bytes
  decrypt e key nonce aad ct = do
    n ← expect (c.nonce_from_slice nonce)
    ok_or (c.aes_gcm_decrypt key n aad ct) e

  pub hkdf32_total :
      (hkdf : HkdfLaws c) (salt ikm info : Bytes)
      → (okm : Bytes) × (hkdf32 salt ikm info ≡ ok okm) × (length okm ≡ 32)
  unfolding hkdf32
  hkdf32_total hkdf salt ikm info =
      let (okm, e, l) = hkdf.expands salt ikm info 32 (omega arith) in (okm, rw e, l)

  module _ (aead : AeadLaws c) where
    -- What was sealed opens, and is 16 bytes longer.
    pub decrypt-encrypt :
        (e e' : E) (key nonce aad msg : Bytes)
        → length key ≡ 32
        → length nonce ≡ 12
        → Fits aad
        → Fits msg
        → (ct : Bytes) × (encrypt e key nonce aad msg ≡ ok ct)
          × (decrypt e' key nonce aad ct ≡ ok msg)
          × (length ct ≡ length msg + 16)
    unfolding encrypt decrypt
    decrypt-encrypt e e' key nonce aad msg hk hn ha hm =
        let (ct, s, o, l) = aead.opens key nonce aad msg hk hn ha hm in
        (ct, rw (aead.nonce_12 nonce hn, s), rw (aead.nonce_12 nonce hn, o), l)

    -- With a nonce of 12 bytes `decrypt` opens or gives its one error.
    pub decrypt_cases :
        (e : E) (key nonce aad ct : Bytes)
        → length nonce ≡ 12
        → ((msg : Bytes) × (decrypt e key nonce aad ct ≡ ok msg))
          ⊎ (decrypt e key nonce aad ct ≡ err e)
    unfolding decrypt
    decrypt_cases e key nonce aad ct hn = elim (Option-cases (c.aes_gcm_decrypt key nonce aad ct)) [
      | inl x ↦ inr (rw (aead.nonce_12 nonce hn, x))
      | inr (msg, x) ↦ inl (msg, rw (aead.nonce_12 nonce hn, x))
    ]

    -- A ciphertext that AES-GCM refuses gives the one error.
    pub decrypt-eq_err :
        (e : E) (key nonce aad ct : Bytes)
        → length nonce ≡ 12
        → c.aes_gcm_decrypt key nonce aad ct ≡ none
        → decrypt e key nonce aad ct ≡ err e
    unfolding decrypt
    decrypt-eq_err e key nonce aad ct hn x = rw (aead.nonce_12 nonce hn, x)

    -- With any other nonce `from_slice` panics.
    pub decrypt_panics :
        (e : E) (key nonce aad ct : Bytes) → length nonce ≢ 12 → decrypt e key nonce aad ct ≡ panic
    unfolding decrypt
    decrypt_panics e key nonce aad ct hn = rw (aead.nonce_other nonce hn)

-- A ciphertext that AES-GCM opens under no other AAD: what its authenticity promises of a ciphertext
-- that nobody forged.
abbrev pub OnlyUnder : Crates → Bytes → Bytes → Bytes → Type 0
OnlyUnder c aad nonce ct =
    (key aad' : Bytes) → aad' ≢ aad → c.aes_gcm_decrypt key nonce aad' ct ≡ none

pub decrypt_elsewhere :
    (c : Crates) {E : Type 0} (aead : AeadLaws c) (e : E) (key nonce aad aad' ct : Bytes)
    → length nonce ≡ 12
    → OnlyUnder c aad nonce ct
    → aad' ≢ aad
    → decrypt c e key nonce aad' ct ≡ err e
decrypt_elsewhere c aead e key nonce aad aad' ct hn only ne =
    decrypt-eq_err c aead e key nonce aad' ct hn (only key aad' ne)
