-- ===== src/Kem/Sealing.antt =====
-- The construction that the four sealing modules share: `ct ‖ nonce ‖ aesgcm(message)` under a key
-- expanded from an encapsulated secret.
use mathlib.Core.List.{append_assoc}
use sk_core.Prelude.{
  drop, sym, ap, ◌∙◌, drop-append, ◌+◌, ◌≡◌, [], ◌++◌, length, length-append, arith,
}
use sk_core.Prelude.Bytes.{Bytes}
use sk_core.Prelude.Outcome.{
  ok, slice_to, slice, slice_from, slice_to-append, slice-append, slice_from-append_append,
}
use sk_core.Crypto.{Crates, Laws, Fits}
use sk_core.Crypto.Calls.{hkdf32, encrypt, decrypt, hkdf32_total, decrypt-encrypt}
use sk_core.Kem.{hybrid_keypair, hybrid_encap, hybrid_decap}
use sk_core.Kem.RoundTrip.{hybrid_decap-encap}

-- The parts of a sealed blob and every intermediate answer of sealing and of opening it.
pub record Sealing (c : Crates) (E : Type 0) (on_seal on_open : E)
    (x_seed mlkem_seed x_eph mlkem_rand : Bytes) (info aad nonce msg : Bytes) : Type 0 where
  pub ct : Bytes
  pub shared : Bytes
  pub key : Bytes
  pub body : Bytes
  pub encap :
      hybrid_encap c x_eph mlkem_rand (hybrid_keypair c x_seed mlkem_seed).public_key
      ≡ ok (ct, shared)
  pub decap : hybrid_decap c ct (hybrid_keypair c x_seed mlkem_seed).private_key ≡ ok shared
  pub derived : hkdf32 c {E = E} [] shared info ≡ ok key
  pub sealed : encrypt c on_seal key nonce aad msg ≡ ok body
  pub opened : decrypt c on_open key nonce aad body ≡ ok msg
  pub length-ct : length ct ≡ 1120
  length-body : length body ≡ length msg + 16
  pub length-blob : length (ct ++ (nonce ++ body)) ≡ length msg + 1148
  pub first : slice_to {E = E} 1120 (ct ++ (nonce ++ body)) ≡ ok ct
  pub second : slice {E = E} 1120 1132 (ct ++ (nonce ++ body)) ≡ ok nonce
  pub third : slice_from {E = E} 1132 (ct ++ (nonce ++ body)) ≡ ok body

pub sealing :
    (c : Crates)
    → Laws c
    → {E : Type 0} (on_seal on_open : E)
      (x_seed mlkem_seed x_eph mlkem_rand info aad nonce msg : Bytes)
    → length x_seed ≡ 32
    → length nonce ≡ 12
    → Fits aad
    → Fits msg
    → Sealing c E on_seal on_open x_seed mlkem_seed x_eph mlkem_rand info aad nonce msg
sealing c laws on_seal on_open x_seed mlkem_seed x_eph mlkem_rand info aad nonce msg hs hn ha hm =
    let (ct, ss, e, d, lc, ls) =
      hybrid_decap-encap c laws.hkdf laws.kem x_seed mlkem_seed x_eph mlkem_rand hs in
    let (key, k, lk) = hkdf32_total c laws.hkdf [] ss info in
    let (body, s, o, lb) =
      decrypt-encrypt c laws.aead on_seal on_open key nonce aad msg lk hn ha hm in
    record {
      ct = ct;
      shared = ss;
      key = key;
      body = body;
      encap = e;
      decap = d;
      derived = k;
      sealed = s;
      opened = o;
      length-ct = lc;
      length-body = lb;
      length-blob = omega (arith, length-append ct (nonce ++ body), length-append nonce body);
      first = slice_to-append ct (nonce ++ body) lc;
      second = slice-append ct nonce body lc (omega arith);
      third = slice_from-append_append ct nonce body (omega arith);
    }

-- The sealed part behind a ciphertext and a nonce.
pub body_drop :
    (ct nonce body : Bytes)
    → length ct + length nonce ≡ 1132
    → drop 1132 (ct ++ (nonce ++ body)) ≡ body
body_drop ct nonce body h =
    ap (drop 1132) (sym (append_assoc ct nonce body))
    ∙ drop-append 1132 (ct ++ nonce) body (omega (arith, length-append ct nonce))
