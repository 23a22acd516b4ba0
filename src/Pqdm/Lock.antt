-- ===== src/Pqdm/Lock.antt =====
-- The AAD that locks the negotiated suite and the parties.
use sk_core.Prelude.{
  arith, if◌then◌else◌, ◌&&◌, ◌≡◌, refl, sym, ap, ◌∙◌, Bool, true, false, none, some,
}
use mathlib.Core.List.{append-nil}
use sk_core.Prelude.Bytes.{Text, codes}
use sk_core.Prelude.Texts.{text_eq, text_lt}
use sk_core.Json.{number, string, object, field, end, SerdeJson, JsonLaws, btree_insert}
use sk_core.Pqdm.{lock_fields, downgrade_lock_aad, negotiate_suite, hybrid_suite, classical_suite}

module _ {N : Type 0} (json : SerdeJson N) where
  -- The map lists its keys in their order, whatever the order of the inserts.
  lock_fields_lem :
      (suite sender recipient : Text)
      → lock_fields json suite sender recipient
        ≡ field (codes "negotiated_suite") (string suite) (
            field (codes "recipient") (string recipient) (
              field
                (codes "sender")
                (string sender)
                (field (codes "v") (number (json.from_u64 1)) end)))
  unfolding lock_fields btree_insert text_eq text_lt
  lock_fields_lem suite sender recipient = refl

  read_lock :
      (laws : JsonLaws json) (suite sender recipient : Text)
      → json.from_slice (downgrade_lock_aad json suite sender recipient none)
        ≡ some (object (lock_fields json suite sender recipient))
  unfolding downgrade_lock_aad lock_fields btree_insert text_eq text_lt
  read_lock laws suite sender recipient = rw append-nil (
      laws.reads_back (lock_fields json suite sender recipient)
        ((refl, (refl, (refl, tt))), (tt, (tt, (tt, (tt, tt))))))

  -- Two AADs without extra bytes that agree lock the same suite, the same sender and the same
  -- recipient.
  pub downgrade_lock_aad_injective :
      (laws : JsonLaws json) (suite sender recipient suite' sender' recipient' : Text)
      → downgrade_lock_aad json suite sender recipient none
        ≡ downgrade_lock_aad json suite' sender' recipient' none
      → (suite ≡ suite') × (sender ≡ sender') × (recipient ≡ recipient')
  downgrade_lock_aad_injective laws suite sender recipient suite' sender' recipient' e =
      let read =
        sym (ap (λ fs. some (object fs)) (lock_fields_lem suite sender recipient))
        ∙ sym (read_lock laws suite sender recipient)
        ∙ ap json.from_slice e
        ∙ read_lock laws suite' sender' recipient'
        ∙ ap (λ fs. some (object fs)) (lock_fields_lem suite' sender' recipient') in
      (cc read, cc read, cc read)

  -- Two AADs of negotiated suites that agree, for the same parties, were negotiated alike: both of
  -- them from hybrid support on both sides, or neither.
  negotiated_aad :
      (laws : JsonLaws json) (local remote local' remote' : Bool) (sender recipient : Text)
      → downgrade_lock_aad json (negotiate_suite local remote) sender recipient none
        ≡ downgrade_lock_aad json (negotiate_suite local' remote') sender recipient none
      → (local && remote) ≡ (local' && remote')
  unfolding negotiate_suite
  negotiated_aad laws local remote local' remote' sender recipient e =
      suite_tells (local && remote) (local' && remote')
        (downgrade_lock_aad_injective laws _ sender recipient _ sender recipient e).0
    where
      suite_tells :
          (a b : Bool)
          → (if a then hybrid_suite else classical_suite)
            ≡ (if b then hybrid_suite else classical_suite)
          → a ≡ b
      suite_tells true true h = refl
      suite_tells false false h = refl
      suite_tells true false h = ground arith
      suite_tells false true h = ground arith
