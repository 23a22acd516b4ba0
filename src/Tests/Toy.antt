-- ===== src/Tests/Toy.antt =====
-- Toy instances of the crates, with no security at all, which meet every law. The examples run on them.
use sk_core.Prelude.{
  ℕ, ◌-◌, ◌≡◌, ◌≢◌, refl, Option, some, none, [], ◌∷◌, length, take, drop, replicate, ◌++◌, arith,
  if◌then◌else◌, ◌==◌, length-append, length-replicate, take-append, drop-append, eq→==, ne→==,
  false, Bool-cases, inl, inr,
}
use sk_core.Prelude.Bytes.{Bytes}
use sk_core.Prelude.Texts.{text_eq, text_eq→eq, text_eq_refl}
use sk_core.Crypto.{Crates, Laws}
use sk_core.Crypto.Calls.{OnlyUnder}

abbrev toy_nonce : Bytes → Option Bytes
toy_nonce b = if length b == 12 then some b else none

-- The byte that tags a ciphertext is a function of key and AAD, and the byte of a derived key one of the
-- key material.
module _ (tag : Bytes → Bytes → ℕ) (mix : Bytes → ℕ) where
  abbrev tagged : Bytes → Bytes → Bytes
  tagged key aad = replicate 16 (tag key aad)

  abbrev tagged_decrypt : Bytes → Bytes → Bytes → Option Bytes
  tagged_decrypt key aad ct =
      if text_eq (drop (length ct - 16) ct) (tagged key aad)
      then some (take (length ct - 16) ct)
      else none

  abbrev toy_with : Crates
  toy_with = record {
    x25519_public = λ a. replicate 32 9;
    x25519_shared = λ a b. replicate 32 5;
    mlkem_generate = λ seed. (replicate 2400 1, replicate 1184 2);
    mlkem_encapsulate = λ ek r. some (replicate 1088 3, replicate 32 4);
    mlkem_decapsulate = λ dk ct. some (replicate 32 4);
    hkdf_sha256 = λ salt ikm info len. some (replicate len (mix ikm));
    aes_gcm_encrypt = λ key nonce aad msg. some (msg ++ tagged key aad);
    aes_gcm_decrypt = λ key nonce aad ct. tagged_decrypt key aad ct;
    nonce_from_slice = toy_nonce;
  }

  length-tagged : (key aad : Bytes) → length (tagged key aad) ≡ 16
  length-tagged key aad = length-replicate {A = ℕ} 16 (tag key aad)

  tag_at : (key aad msg : Bytes) → length (msg ++ tagged key aad) - 16 ≡ length msg
  tag_at key aad msg = omega (arith, length-append msg (tagged key aad), length-tagged key aad)

  tagged_opens : (key aad msg : Bytes) → tagged_decrypt key aad (msg ++ tagged key aad) ≡ some msg
  tagged_opens key aad msg = rw (
    tag_at key aad msg,
    drop-append (length msg) msg (tagged key aad) refl,
    take-append (length msg) msg (tagged key aad) refl,
    text_eq_refl (tagged key aad),
  )

  -- Another tag is refused.
  tagged_refuses :
      (key aad key' aad' msg : Bytes)
      → text_eq (tagged key aad) (tagged key' aad') ≡ false
      → tagged_decrypt key' aad' (msg ++ tagged key aad) ≡ none
  tagged_refuses key aad key' aad' msg e =
      rw (tag_at key aad msg, drop-append (length msg) msg (tagged key aad) refl, e)

  toy_with_laws : Laws toy_with
  toy_with_laws = record {
    kem = record {
      agree = λ a b. refl;
      length-public = λ a. refl;
      length-dk = λ seed. length-replicate {A = ℕ} 2400 1;
      length-ek = λ seed. length-replicate {A = ℕ} 1184 2;
      recovers =
          λ seed r. (replicate 1088 3, replicate 32 4, refl, refl, length-replicate {A = ℕ} 1088 3);
      implicit_rejection = λ dk ct _ _. (replicate 32 4, refl);
    };
    hkdf = record {
      expands = λ salt ikm info len _.
          (replicate len (mix ikm), refl, length-replicate {A = ℕ} len (mix ikm));
    };
    aead = record {
      opens = λ key nonce aad msg _ _ _ _. (
        msg ++ tagged key aad,
        refl,
        tagged_opens key aad msg,
        omega (arith, length-append msg (tagged key aad), length-tagged key aad),
      );
      nonce_12 = λ b h. rw (eq→== (length b) 12 h);
      nonce_other = λ b h. rw (ne→== (length b) 12 h);
    };
  }

-- One tag for the AAD `locked`, and one for all others.
abbrev lock_tag : Bytes → Bytes → Bytes → ℕ
lock_tag locked key aad = if text_eq aad locked then 1 else 0

abbrev pub toy_tag : Bytes → Bytes → Bytes
toy_tag locked aad = replicate 16 (if text_eq aad locked then 1 else 0)

abbrev pub toy : Bytes → Crates
toy locked = toy_with (lock_tag locked) (λ ikm. 6)

pub toy_laws : (locked : Bytes) → Laws (toy locked)
toy_laws locked = toy_with_laws (lock_tag locked) (λ ikm. 6)

tags_differ :
    (locked aad : Bytes)
    → aad ≢ locked
    → text_eq (toy_tag locked locked) (toy_tag locked aad) ≡ false
unfolding text_eq
tags_differ locked aad ne = elim (Bool-cases (text_eq aad locked)) [
  | inl e ↦ absurd (ne (text_eq→eq aad locked e))
  | inr e ↦ rw (e, text_eq_refl locked) refl
]

pub toy-OnlyUnder :
    (locked nonce msg : Bytes) → OnlyUnder (toy locked) locked nonce (msg ++ toy_tag locked locked)
toy-OnlyUnder locked nonce msg key aad ne =
    tagged_refuses (lock_tag locked) (λ ikm. 6) key locked key aad msg (tags_differ locked aad ne)

-- An instance whose keys and tags are told by the first byte of a secret and of a key.
abbrev first_byte : Bytes → ℕ
first_byte [] = 0
first_byte (b ∷ _) = b

abbrev pub keyed : Crates
keyed = toy_with (λ key aad. first_byte key) first_byte

pub keyed_laws : Laws keyed
keyed_laws = toy_with_laws (λ key aad. first_byte key) first_byte
