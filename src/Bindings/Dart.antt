-- ===== src/Bindings/Dart.antt =====
-- src/frb_api.rs: the functions that flutter_rust_bridge exposes to Dart.
use sk_core.Prelude.{ℕ, List, [], ◌∷◌}
use sk_core.Prelude.Bytes.{Bytes, Text}
use sk_core.Prelude.Outcome.{Outcome, ok, ◌>>=◌, map_err}
use sk_core.Crypto.{Crates}
use sk_core.Errors.{kem_text, ratchet_text}
use sk_core.Kem as Kem
use sk_core.Ratchet as Ratchet

pub record FrbHybridKeyPair : Type 0 where
  pub public_key : Bytes
  pub private_key : Bytes

pub record FrbEncapResult : Type 0 where
  pub ciphertext : Bytes
  pub shared_secret : Bytes

module _ (c : Crates) where
  unfoldable pub hybrid_keypair : Bytes → Bytes → FrbHybridKeyPair
  hybrid_keypair x_seed mlkem_seed =
      let kp = Kem.hybrid_keypair c x_seed mlkem_seed in
      record { public_key = kp.public_key; private_key = kp.private_key }

  unfoldable pub hybrid_encap : Bytes → Bytes → Bytes → Outcome Text FrbEncapResult
  unfolding kem_text
  hybrid_encap x_eph mlkem_rand peer_public_key = do
    (ciphertext, shared) ← map_err kem_text (Kem.hybrid_encap c x_eph mlkem_rand peer_public_key)
    ok (record { ciphertext = ciphertext; shared_secret = shared })

  unfoldable pub hybrid_decap : Bytes → Bytes → Outcome Text Bytes
  unfolding kem_text
  hybrid_decap ciphertext private_key = map_err kem_text (Kem.hybrid_decap c ciphertext private_key)

  unfoldable pub derive_dm_message_key : Bytes → ℕ → ℕ → Outcome Text Bytes
  unfolding ratchet_text
  derive_dm_message_key epoch_secret epoch index =
      map_err ratchet_text (Ratchet.derive_dm_message_key c epoch_secret epoch index)

abbrev pub suite_id : Text
suite_id = Kem.suite_id

unfoldable pub wire_sizes : List ℕ
wire_sizes =
    Kem.public_key_len ∷ Kem.private_key_len ∷ Kem.ciphertext_len ∷ Kem.shared_secret_len ∷ []
