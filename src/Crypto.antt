-- ===== src/Crypto.antt =====
-- The third-party crates that the sources call: x25519-dalek, ml-kem, hkdf with sha2, and aes-gcm.
-- None of them is part of the repository, so their operations are parameters, and what the sources
-- rely on is stated as laws. Randomness is an argument wherever the source draws from `OsRng`.
pub mod Calls
use sk_core.Prelude.{ℕ, ◌+◌, ◌*◌, ◌≤◌, ◌^◌, ◌≡◌, ◌≢◌, Option, some, none, length, []}
use sk_core.Prelude.Bytes.{Bytes}

pub record Crates : Type 0 where
  -- `PublicKey::from(&StaticSecret)` and `StaticSecret::diffie_hellman`.
  pub x25519_public : Bytes → Bytes
  pub x25519_shared : Bytes → Bytes → Bytes
  -- `MlKem768::generate`: a seed to the decapsulation key and the encapsulation key.
  pub mlkem_generate : Bytes → Bytes × Bytes
  -- `encapsulate`: a key and 32 random bytes to a ciphertext and a secret.
  pub mlkem_encapsulate : Bytes → Bytes → Option (Bytes × Bytes)
  pub mlkem_decapsulate : Bytes → Bytes → Option Bytes
  -- `Hkdf::<Sha256>::new(Some(salt), ikm)` followed by `expand(info, L bytes)`.
  pub hkdf_sha256 : Bytes → Bytes → Bytes → ℕ → Option Bytes
  -- `Aes256Gcm::new(key)` with `encrypt` and `decrypt`: key, nonce, AAD, message.
  pub aes_gcm_encrypt : Bytes → Bytes → Bytes → Bytes → Option Bytes
  pub aes_gcm_decrypt : Bytes → Bytes → Bytes → Bytes → Option Bytes
  -- `Nonce::from_slice`; `none` where it panics.
  pub nonce_from_slice : Bytes → Option Bytes

-- AES-GCM takes messages and AADs of up to 2^36 bytes.
abbrev pub Fits : Bytes → Type 0
Fits b = length b ≤ 2 ^ 36

-- X25519 agrees, and its public values have 32 bytes. A generated ML-KEM-768 pair has its documented
-- lengths, and decapsulation recovers what was encapsulated; on inputs of the right length it never
-- fails (implicit rejection).
pub record KemLaws (c : Crates) : Type 0 where
  pub agree :
      (a b : Bytes) → c.x25519_shared a (c.x25519_public b) ≡ c.x25519_shared b (c.x25519_public a)
  pub length-public : (a : Bytes) → length (c.x25519_public a) ≡ 32
  pub length-dk : (seed : Bytes) → length (c.mlkem_generate seed).0 ≡ 2400
  pub length-ek : (seed : Bytes) → length (c.mlkem_generate seed).1 ≡ 1184
  pub recovers :
      (seed r : Bytes)
      → (ct ss : Bytes) × (c.mlkem_encapsulate (c.mlkem_generate seed).1 r ≡ some (ct, ss))
        × (c.mlkem_decapsulate (c.mlkem_generate seed).0 ct ≡ some ss)
        × (length ct ≡ 1088)
  pub implicit_rejection :
      (dk ct : Bytes)
      → length dk ≡ 2400
      → length ct ≡ 1088
      → (ss : Bytes) × (c.mlkem_decapsulate dk ct ≡ some ss)

-- HKDF-SHA256 gives any output of up to 255 blocks of 32 bytes.
pub record HkdfLaws (c : Crates) : Type 0 where
  pub expands :
      (salt ikm info : Bytes) (len : ℕ)
      → len ≤ 255 * 32
      → (okm : Bytes) × (c.hkdf_sha256 salt ikm info len ≡ some okm) × (length okm ≡ len)

-- AES-256-GCM opens what it sealed, and adds a tag of 16 bytes. A slice becomes a nonce exactly if
-- it has 12 bytes, and `from_slice` panics otherwise.
pub record AeadLaws (c : Crates) : Type 0 where
  pub opens :
      (key nonce aad msg : Bytes)
      → length key ≡ 32
      → length nonce ≡ 12
      → Fits aad
      → Fits msg
      → (ct : Bytes) × (c.aes_gcm_encrypt key nonce aad msg ≡ some ct)
        × (c.aes_gcm_decrypt key nonce aad ct ≡ some msg)
        × (length ct ≡ length msg + 16)
  pub nonce_12 : (b : Bytes) → length b ≡ 12 → c.nonce_from_slice b ≡ some b
  pub nonce_other : (b : Bytes) → length b ≢ 12 → c.nonce_from_slice b ≡ none

pub record Laws (c : Crates) : Type 0 where
  pub kem : KemLaws c
  pub hkdf : HkdfLaws c
  pub aead : AeadLaws c
