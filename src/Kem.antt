-- ===== src/Kem.antt =====
-- src/kem.rs: the hybrid KEM, X25519 composed with ML-KEM-768 by concatenate-then-KDF.
pub mod RoundTrip
pub mod Branches
pub mod Sealing
use sk_core.Prelude.{ℕ, ◌+◌, ◌≡◌, Option, some, none, List, [], ◌∷◌, ◌++◌, String, length, ◌==◌}
use sk_core.Prelude.Bytes.{Bytes, Text, codes}
use sk_core.Prelude.Outcome.{
  Outcome, ok, err, panic, ◌>>=◌, ◌>>◌, guard, ok_or, expect, slice_to, slice_from,
}
use sk_core.Crypto.{Crates}

abbrev pub suite_id : Text
suite_id = codes "x25519-mlkem768"

abbrev pub hkdf_info : Bytes
hkdf_info = codes "sk_pqc/x25519-mlkem768/v1"

abbrev x25519_pub_len : ℕ
x25519_pub_len = 32

abbrev x25519_seed_len : ℕ
x25519_seed_len = 32

abbrev mlkem_pub_len : ℕ
mlkem_pub_len = 1184

abbrev mlkem_secret_len : ℕ
mlkem_secret_len = 2400

abbrev mlkem_ct_len : ℕ
mlkem_ct_len = 1088

abbrev pub public_key_len : ℕ
public_key_len = x25519_pub_len + mlkem_pub_len

abbrev pub private_key_len : ℕ
private_key_len = x25519_seed_len + mlkem_secret_len

abbrev pub ciphertext_len : ℕ
ciphertext_len = x25519_pub_len + mlkem_ct_len

abbrev pub shared_secret_len : ℕ
shared_secret_len = 32

pub data KemError : Type 0 where
  bad_length : String → ℕ → ℕ → KemError
  mlkem : String → KemError

pub record HybridKeyPair : Type 0 where
  pub public_key : Bytes
  pub private_key : Bytes

pub expect_len : String → Bytes → ℕ → Outcome KemError (Unit {0})
expect_len what value expected =
    guard (length value == expected) (bad_length what expected (length value))

module _ (c : Crates) where
  open c use {
    x25519_public, x25519_shared, mlkem_generate, mlkem_encapsulate, mlkem_decapsulate, hkdf_sha256,
  }

  -- Generic in the error, which an `expect` never produces.
  pub combine : {E : Type 0} → Bytes → Bytes → Outcome E Bytes
  combine x25519_ss mlkem_ss =
      expect (hkdf_sha256 [] (x25519_ss ++ mlkem_ss) hkdf_info shared_secret_len)

  -- The arguments are the draws of the two generators.
  pub hybrid_keypair : Bytes → Bytes → HybridKeyPair
  hybrid_keypair x_seed mlkem_seed = record {
    public_key = x25519_public x_seed ++ (mlkem_generate mlkem_seed).1;
    private_key = x_seed ++ (mlkem_generate mlkem_seed).0;
  }

  -- The first two arguments are the ephemeral X25519 secret and the ML-KEM randomness. The arrays of
  -- ml-kem are made by `try_from`, which accepts the one right length.
  pub hybrid_encap : Bytes → Bytes → Bytes → Outcome KemError (Bytes × Bytes)
  unfolding expect_len combine
  hybrid_encap x_eph mlkem_rand peer_public_key = do
    expect_len "hybrid public key" peer_public_key public_key_len
    x_peer ← slice_to x25519_pub_len peer_public_key
    mlkem_pub ← slice_from x25519_pub_len peer_public_key
    expect_len "ML-KEM public key" mlkem_pub mlkem_pub_len
    let x_ss = x25519_shared x_eph x_peer
    (ct, mlkem_ss) ← ok_or (mlkem_encapsulate mlkem_pub mlkem_rand) (mlkem "encapsulation failed")
    shared ← combine x_ss mlkem_ss
    ok (x25519_public x_eph ++ ct, shared)

  pub hybrid_decap : Bytes → Bytes → Outcome KemError Bytes
  unfolding expect_len combine
  hybrid_decap ciphertext private_key = do
    expect_len "hybrid ciphertext" ciphertext ciphertext_len
    expect_len "hybrid private key" private_key private_key_len
    x_eph_pub ← slice_to x25519_pub_len ciphertext
    mlkem_ct ← slice_from x25519_pub_len ciphertext
    x_seed ← slice_to x25519_seed_len private_key
    mlkem_dk ← slice_from x25519_seed_len private_key
    let x_ss = x25519_shared x_seed x_eph_pub
    expect_len "ML-KEM secret key" mlkem_dk mlkem_secret_len
    expect_len "ML-KEM ciphertext" mlkem_ct mlkem_ct_len
    mlkem_ss ← ok_or (mlkem_decapsulate mlkem_dk mlkem_ct) (mlkem "decapsulation failed")
    combine x_ss mlkem_ss
