-- ===== src/Bindings/Clients.antt =====
-- What the clients of the three bindings see.
use sk_core.Prelude.{
  ℕ, ◌≡◌, refl, ◌++◌, length, replicate, ◌==◌, eq→==, ne→==, if◌then◌else◌, Bool-cases, inl, inr,
  ==_iff,
}
use sk_core.Prelude.Bytes.{Bytes, Text, codes}
use sk_core.Prelude.Decimal.{decimal, digits}
use sk_core.Prelude.Outcome.{Outcome, ok, err, map_err}
use sk_core.Crypto.{Crates, Laws}
use sk_core.Errors.{length_text, kem_text, ratchet_text}
use sk_core.Kem.{KemError}
use sk_core.Kem as Kem
use sk_core.Kem.RoundTrip.{hybrid_decap-encap}
use sk_core.Kem.Branches.{DecapAnswer, wrong_ciphertext, wrong_key, opened, hybrid_decap_answer}
use sk_core.Ratchet as Ratchet
use sk_core.Ratchet.Schedule.{derive_dm_message_key_bad, derive_dm_message_key_total}
use sk_core.Bindings.Dart as Dart
use sk_core.Bindings.Wasm as Wasm
use sk_core.Bindings.Python as Python

-- The answer of a decapsulation, with the secret `ss` where the lengths are right.
abbrev pub decap_result : Bytes → Bytes → Bytes → Outcome Text Bytes
decap_result ct sk ss =
    if length ct == 1120
    then if length sk == 2432
      then ok ss
      else err (codes "hybrid private key must be 2432 bytes, got " ++ decimal (length sk))
    else err (codes "hybrid ciphertext must be 1120 bytes, got " ++ decimal (length ct))

-- The answer of a key derivation, with the key where the length is right.
abbrev pub derive_result : Bytes → Bytes → Outcome Text Bytes
derive_result secret key =
    if length secret == 32
    then ok key
    else err (codes "epoch_secret must be 32 bytes, got " ++ decimal (length secret))

decap_of_answer :
    (ct sk : Bytes) (o : Outcome KemError Bytes)
    → DecapAnswer ct sk o
    → (ss : Bytes) × (length ss ≡ 32) × (map_err kem_text o ≡ decap_result ct sk ss)
unfolding kem_text length_text decimal digits
decap_of_answer ct sk o (wrong_ciphertext bad) =
    (replicate 32 0, refl, rw (ne→== (length ct) 1120 bad))
decap_of_answer ct sk o (wrong_key good bad) =
    (replicate 32 0, refl, rw (eq→== (length ct) 1120 good, ne→== (length sk) 2432 bad))
decap_of_answer ct sk o (opened ss good fine l) =
    (ss, l, rw (eq→== (length ct) 1120 good, eq→== (length sk) 2432 fine))

module _ (c : Crates) (laws : Laws c) where
  derive_text :
      (secret : Bytes) (epoch index : ℕ)
      → (key : Bytes) × (length key ≡ 32)
        × (map_err ratchet_text (Ratchet.derive_dm_message_key c secret epoch index)
            ≡ derive_result secret key)
  unfolding ratchet_text length_text decimal digits
  derive_text secret epoch index = elim (Bool-cases (length secret == 32)) [
    | inl e ↦
        let (key, derived, l) =
          derive_dm_message_key_total c laws.hkdf secret epoch index
            ((==_iff (length secret) 32).0 e) in
        (key, l, rw (e, derived))
    | inr e ↦ (replicate 32 0, refl, rw (e, derive_dm_message_key_bad c secret epoch index e))
  ]

  -- In every binding a decapsulation gives 32 secret bytes or the text that names the argument of the
  -- wrong length, its right length and its length, the ciphertext first; and a key derivation gives 32
  -- bytes or the text that names the length of the secret. No call panics, and the three bindings
  -- answer alike.
  pub client_answers :
      (ct sk secret : Bytes) (epoch index : ℕ)
      → ((ss : Bytes) × (length ss ≡ 32)
          × (Dart.hybrid_decap c ct sk ≡ decap_result ct sk ss)
          × (Wasm.hybrid_decap c ct sk ≡ decap_result ct sk ss)
          × (Python.hybrid_decap c ct sk ≡ decap_result ct sk ss))
        × ((key : Bytes) × (length key ≡ 32)
            × (Dart.derive_dm_message_key c secret epoch index ≡ derive_result secret key)
            × (Wasm.derive_dm_message_key c secret epoch index ≡ derive_result secret key)
            × (Python.derive_dm_message_key c secret epoch index ≡ derive_result secret key))
  unfolding Dart.hybrid_decap Wasm.hybrid_decap Python.hybrid_decap Dart.derive_dm_message_key
      Wasm.derive_dm_message_key Python.derive_dm_message_key
  client_answers ct sk secret epoch index =
      let (ss, l, e) =
        decap_of_answer ct sk (Kem.hybrid_decap c ct sk)
          (hybrid_decap_answer c laws.hkdf laws.kem ct sk) in
      let (key, n, d) = derive_text secret epoch index in ((ss, l, e, e, e), (key, n, d, d, d))

  -- A ciphertext made by a JavaScript client for a keypair made by a Dart client is decapsulated by a
  -- client of any of the three bindings to the secret that the sender has, if the X25519 seed of the
  -- keypair has 32 bytes.
  pub clients_agree :
      (x_seed mlkem_seed x_eph mlkem_rand : Bytes)
      → length x_seed ≡ 32
      → let kp = Dart.hybrid_keypair c x_seed mlkem_seed in
        (r : Wasm.EncapResult) × (Wasm.hybrid_encap c x_eph mlkem_rand kp.public_key ≡ ok r)
        × (Python.hybrid_encap c x_eph mlkem_rand kp.public_key
            ≡ ok (r.ciphertext, r.shared_secret))
        × (Dart.hybrid_decap c r.ciphertext kp.private_key ≡ ok r.shared_secret)
        × (Wasm.hybrid_decap c r.ciphertext kp.private_key ≡ ok r.shared_secret)
        × (Python.hybrid_decap c r.ciphertext kp.private_key ≡ ok r.shared_secret)
  unfolding Dart.hybrid_keypair Dart.hybrid_decap Wasm.hybrid_decap Python.hybrid_decap
      Wasm.hybrid_encap Python.hybrid_encap
  clients_agree x_seed mlkem_seed x_eph mlkem_rand h =
      let (ct, ss, sealed, recovered, _, _) =
        hybrid_decap-encap c laws.hkdf laws.kem x_seed mlkem_seed x_eph mlkem_rand h in
      (
        record { ciphertext = ct; shared_secret = ss },
        rw sealed,
        rw sealed,
        rw recovered,
        rw recovered,
        rw recovered,
      )
