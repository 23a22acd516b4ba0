-- ===== src/Bindings/Python.antt =====
-- src/python.rs: the functions that PyO3 exposes to Python. An object of bytes is its bytes.
use sk_core.Prelude.{ℕ}
use sk_core.Prelude.Bytes.{Bytes, Text}
use sk_core.Prelude.Outcome.{Outcome, map_err}
use sk_core.Crypto.{Crates}
use sk_core.Errors.{kem_text, ratchet_text}
use sk_core.Kem as Kem
use sk_core.Ratchet as Ratchet

module _ (c : Crates) where
  unfoldable pub hybrid_keypair : Bytes → Bytes → Bytes × Bytes
  hybrid_keypair x_seed mlkem_seed =
      let kp = Kem.hybrid_keypair c x_seed mlkem_seed in (kp.public_key, kp.private_key)

  unfoldable pub hybrid_encap : Bytes → Bytes → Bytes → Outcome Text (Bytes × Bytes)
  unfolding kem_text
  hybrid_encap x_eph mlkem_rand peer_public_key =
      map_err kem_text (Kem.hybrid_encap c x_eph mlkem_rand peer_public_key)

  unfoldable pub hybrid_decap : Bytes → Bytes → Outcome Text Bytes
  unfolding kem_text
  hybrid_decap ciphertext private_key = map_err kem_text (Kem.hybrid_decap c ciphertext private_key)

  unfoldable pub derive_dm_message_key : Bytes → ℕ → ℕ → Outcome Text Bytes
  unfolding ratchet_text
  derive_dm_message_key epoch_secret epoch index =
      map_err ratchet_text (Ratchet.derive_dm_message_key c epoch_secret epoch index)
