-- ===== src/Tests/Registries.antt =====
-- The theorems on the suite registry at concrete inputs.
use sk_core.Prelude.{◌≡◌, refl, ◌∷◌, false, true, none, []}
use sk_core.Prelude.Bytes.{Text, codes}
use sk_core.Suites.{
  CryptoSuite, symmetric, aead, register, put, seeded, get_suite, all_suites, active_suites,
}
use sk_core.Suites.Order.{register_all, all_suites-register_all}
use sk_core.Prelude.Texts.{text_eq}

abbrev chacha : CryptoSuite
chacha = record {
  suite_id = codes "chacha20-poly1305-v1";
  kind = aead;
  status = symmetric;
  primitives = [];
  fips_refs = [];
  description = [];
  active = true;
  replaces = none;
}

-- Another suite under the same id, which the registration of `chacha` overwrites.
abbrev draft : CryptoSuite
draft = record chacha { active = false }

same_lookups :
    (id : Text)
    → get_suite (register_all seeded (draft ∷ chacha ∷ [])) id
      ≡ get_suite (register_all seeded (chacha ∷ [])) id
unfolding get_suite register_all seeded register put text_eq
same_lookups id = refl

all_suites-register_all_example :
    (all_suites (register_all seeded (draft ∷ chacha ∷ []))
      ≡ all_suites (register_all seeded (chacha ∷ [])))
    × (active_suites (register_all seeded (draft ∷ chacha ∷ []))
        ≡ active_suites (register_all seeded (chacha ∷ [])))
all_suites-register_all_example =
    all_suites-register_all (draft ∷ chacha ∷ []) (chacha ∷ []) same_lookups
