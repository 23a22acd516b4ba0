-- ===== src/Tests/Clients.antt =====
-- The theorems on the bindings at concrete inputs.
use sk_core.Prelude.{◌≡◌, refl, [], length, replicate}
use sk_core.Prelude.Bytes.{Bytes, codes}
use sk_core.Prelude.Outcome.{ok}
use sk_core.Bindings.Dart as Dart
use sk_core.Bindings.Wasm as Wasm
use sk_core.Bindings.Python as Python
use sk_core.Bindings.Clients.{decap_result, derive_result, client_answers, clients_agree}
use sk_core.Tests.Toy.{toy, toy_laws}

client_answers_example :
    ((ss : Bytes) × (length ss ≡ 32)
      × (Dart.hybrid_decap (toy []) (codes "short") [] ≡ decap_result (codes "short") [] ss)
      × (Wasm.hybrid_decap (toy []) (codes "short") [] ≡ decap_result (codes "short") [] ss)
      × (Python.hybrid_decap (toy []) (codes "short") [] ≡ decap_result (codes "short") [] ss))
    × ((key : Bytes) × (length key ≡ 32)
        × (Dart.derive_dm_message_key (toy []) (replicate 32 1) 0 3
            ≡ derive_result (replicate 32 1) key)
        × (Wasm.derive_dm_message_key (toy []) (replicate 32 1) 0 3
            ≡ derive_result (replicate 32 1) key)
        × (Python.derive_dm_message_key (toy []) (replicate 32 1) 0 3
            ≡ derive_result (replicate 32 1) key))
client_answers_example =
    client_answers (toy []) (toy_laws []) (codes "short") [] (replicate 32 1) 0 3

clients_agree_example :
    let kp = Dart.hybrid_keypair (toy []) (replicate 32 7) [] in
    (r : Wasm.EncapResult) × (Wasm.hybrid_encap (toy []) [] [] kp.public_key ≡ ok r)
    × (Python.hybrid_encap (toy []) [] [] kp.public_key ≡ ok (r.ciphertext, r.shared_secret))
    × (Dart.hybrid_decap (toy []) r.ciphertext kp.private_key ≡ ok r.shared_secret)
    × (Wasm.hybrid_decap (toy []) r.ciphertext kp.private_key ≡ ok r.shared_secret)
    × (Python.hybrid_decap (toy []) r.ciphertext kp.private_key ≡ ok r.shared_secret)
clients_agree_example = clients_agree (toy []) (toy_laws []) (replicate 32 7) [] [] [] refl
