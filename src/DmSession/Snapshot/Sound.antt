-- ===== src/DmSession/Snapshot/Sound.antt =====
-- What `restore` can answer, for every JSON value.
use sk_core.Prelude.{
  ℕ, ◌≡◌, refl, ◌∙◌, Option, none, some, List, [], String, length, ◌==◌, ==_iff, inl, inr,
  Bool-cases, Option-cases, some_injective,
}
use mathlib.Core.Path.{subst}
use sk_core.Prelude.Bytes.{Bytes, Text, IsU64, codes}
use sk_core.Prelude.Maps.{lookup, insert}
use sk_core.Prelude.Maps.Distinct.{Distinct, AllEntries, AllEntries-insert, insert-Distinct}
use sk_core.Prelude.Decimal.{parse_u64, parse_u64-IsU64}
use sk_core.Prelude.Outcome.{ok_injective, ok, >>=-elim, guard, guard-eq-ok, ok_or, ok_or-eq-ok}
use sk_core.Json.{Value, Fields, SerdeJson, null, bool, number, string, array, object, end, field}
use sk_core.Json.Access.{
  JsonNumbers, JsonNumbersLaws, get, as_str, as_object, is_null, value_as_u64, value_as_f64,
}
use sk_core.Ratchet.{DmRatchet, epoch_secret_len}
use sk_core.DmSession.{DmSession, session_with_bounds}
use sk_core.DmSession.Snapshot.{
  Hex, bad, u64_field, f64_field, str_field, restore_secrets, restore_secrets_of, restore_kam,
  restore_ratchet, restore_ratchet_of, restore,
}
use sk_core.DmSession.Snapshot.Secrets.{IsSecret}
use sk_core.DmSession.Snapshot.Stored.{IsFinite, IsStored}

-- What a ratchet read from a snapshot has, given the bounds and the secrets that were read before it.
record Matches {N F : Type 0} (numbers : JsonNumbers N F) (bound age : ℕ)
    (secrets : List (ℕ × Bytes)) (r : DmRatchet F) : Type 0 where
  secret_stored : lookup r.epoch secrets ≡ some r.epoch_secret
  epoch_u64 : IsU64 r.epoch
  index_u64 : IsU64 r.message_index
  same_bound : r.rekey_msg_bound ≡ bound
  same_age : r.rekey_age_seconds ≡ age
  finite : IsFinite numbers r.epoch_started_at

module _ {N F : Type 0} (json : SerdeJson N) (numbers : JsonNumbers N F) (hex : Hex) where
  -- Every epoch has one secret, of 32 bytes.
  abbrev AreSecrets : List (ℕ × Bytes) → Type 0
  AreSecrets m = Distinct m × AllEntries IsSecret m

  module _ (laws : JsonNumbersLaws json numbers) where
    value_as_u64-IsU64 : (v : Value N) (n : ℕ) → value_as_u64 numbers v ≡ some n → IsU64 n
    unfolding value_as_u64
    value_as_u64-IsU64 (number x) n e = laws.as_u64-IsU64 x n e
    value_as_u64-IsU64 null n e = cc
    value_as_u64-IsU64 (bool b) n e = cc
    value_as_u64-IsU64 (string s) n e = cc
    value_as_u64-IsU64 (array a) n e = cc
    value_as_u64-IsU64 (object o) n e = cc

    value_as_f64-IsFinite :
        (v : Value N) (t : F) → value_as_f64 numbers v ≡ some t → IsFinite numbers t
    unfolding value_as_f64
    value_as_f64-IsFinite (number x) t e = laws.as_f64_finite x t e
    value_as_f64-IsFinite null t e = cc
    value_as_f64-IsFinite (bool b) t e = cc
    value_as_f64-IsFinite (string s) t e = cc
    value_as_f64-IsFinite (array a) t e = cc
    value_as_f64-IsFinite (object o) t e = cc

    u64_field-IsU64 :
        (m : String) (key : Text) (v : Value N) (n : ℕ)
        → u64_field json numbers hex m key v ≡ ok n
        → IsU64 n
    unfolding u64_field
    u64_field-IsU64 m key v n e = >>=-elim (ok_or (get key v) (bad m)) _ e λ found _ is.
        value_as_u64-IsU64 found n (ok_or-eq-ok (value_as_u64 numbers found) (bad m) is)

    f64_field-IsFinite :
        (m : String) (key : Text) (v : Value N) (t : F)
        → f64_field json numbers hex m key v ≡ ok t
        → IsFinite numbers t
    unfolding f64_field
    f64_field-IsFinite m key v t e = >>=-elim (ok_or (get key v) (bad m)) _ e λ found _ is.
        value_as_f64-IsFinite found t (ok_or-eq-ok (value_as_f64 numbers found) (bad m) is)

    restore_secrets_sound :
        (fs : Fields N) (acc m : List (ℕ × Bytes))
        → AreSecrets acc
        → restore_secrets json numbers hex fs acc ≡ ok m
        → AreSecrets m
    unfolding restore_secrets
    restore_secrets_sound end acc m h e = subst AreSecrets (ok_injective e) h
    restore_secrets_sound (field k v rest) acc m h e =
        >>=-elim (ok_or (parse_u64 k) (bad "bad epoch key")) _ e λ epoch parsed e1.
          >>=-elim (ok_or (as_str v) (bad "secret not str")) _ e1 λ text _ e2.
            >>=-elim (ok_or (hex.decode text) (bad "bad secret hex")) _ e2 λ raw _ e3.
              >>=-elim (guard (length raw == epoch_secret_len) (bad "secret wrong length")) _ e3
                λ _ long e4.
                  restore_secrets_sound rest (insert epoch raw acc) m
                    (
                      insert-Distinct epoch raw acc h.0,
                      AllEntries-insert IsSecret epoch raw acc
                          (
                            parse_u64-IsU64 k epoch
                                (ok_or-eq-ok (parse_u64 k) (bad "bad epoch key") parsed),
                            (==_iff (length raw) 32).0 (guard-eq-ok _ _ long),
                          )
                          h.1,
                    )
                    e4

    restore_secrets_of_sound :
        (o : Option (Value N)) (m : List (ℕ × Bytes))
        → restore_secrets_of json numbers hex o ≡ ok m
        → AreSecrets m
    unfolding restore_secrets_of
    restore_secrets_of_sound none m e = subst AreSecrets (ok_injective e) (tt, tt)
    restore_secrets_of_sound (some v) m e = elim (Option-cases (as_object v)) [
      | inl k ↦ subst AreSecrets (ok_injective (rw (restore_secrets_of, k) at e)) (tt, tt)
      | inr (fs, k) ↦ restore_secrets_sound fs [] m (tt, tt) (rw (restore_secrets_of, k) at e)
    ]

    restore_ratchet_sound :
        (bound age : ℕ) (secrets : List (ℕ × Bytes)) (v : Value N) (r : DmRatchet F)
        → restore_ratchet json numbers hex bound age secrets v ≡ ok r
        → Matches numbers bound age secrets r
    unfolding restore_ratchet
    restore_ratchet_sound bound age secrets v r e =
        >>=-elim (u64_field json numbers hex "ratchet.epoch" (codes "epoch") v) _ e λ epoch a e1.
          >>=-elim (u64_field json numbers hex "ratchet.message_index" (codes "message_index") v) _
            e1
            λ index b e2.
              >>=-elim
                (f64_field json numbers hex "ratchet.epoch_started_at" (codes "epoch_started_at") v)
                _ e2
                λ start c e3.
                  >>=-elim (ok_or (lookup epoch secrets) (bad "ratchet epoch has no stored secret"))
                    _ e3
                    λ secret d e4.
                      subst (Matches numbers bound age secrets) (ok_injective e4) (record {
                        secret_stored = ok_or-eq-ok (lookup epoch secrets) _ d;
                        epoch_u64 = u64_field-IsU64 "ratchet.epoch" (codes "epoch") v epoch a;
                        index_u64 =
                            u64_field-IsU64 "ratchet.message_index" (codes "message_index") v index
                              b;
                        same_bound = refl;
                        same_age = refl;
                        finite =
                            f64_field-IsFinite "ratchet.epoch_started_at" (codes "epoch_started_at")
                              v start c;
                      })

    -- The ratchet of a snapshot, if it has one.
    restore_ratchet_of_sound :
        (bound age : ℕ) (secrets : List (ℕ × Bytes)) (o : Option (Value N))
        (current : Option (DmRatchet F))
        → restore_ratchet_of json numbers hex bound age secrets o ≡ ok current
        → (r : DmRatchet F) → current ≡ some r
        → Matches numbers bound age secrets r
    unfolding restore_ratchet_of
    restore_ratchet_of_sound bound age secrets none current e r k = cc (ok_injective e)
    restore_ratchet_of_sound bound age secrets (some v) current e r k =
        elim (Bool-cases (is_null v)) [
          | inl n ↦ cc (ok_injective (rw n at e))
          | inr n ↦
              >>=-elim (restore_ratchet json numbers hex bound age secrets v) _ (rw n at e)
                λ found a e1.
                  subst (Matches numbers bound age secrets) (some_injective (ok_injective e1 ∙ k))
                    (restore_ratchet_sound bound age secrets v found a)
        ]

    -- Whatever JSON value is restored, a session that `restore` answers is well-formed: its numbers are
    -- `u64`s, every epoch has one secret, of 32 bytes, and the outbound ratchet uses the stored secret of
    -- its epoch and the bounds of the session.
    pub restore-IsStored :
        (v : Value N) (s : DmSession F) → restore json numbers hex v ≡ ok s → IsStored numbers s
    unfolding restore str_field session_with_bounds
    restore-IsStored v s e =
        >>=-elim (str_field json numbers hex "missing peer" (codes "peer") v) _ e λ peer _ e1.
          >>=-elim
            (u64_field json numbers hex "missing rekey_msg_bound" (codes "rekey_msg_bound") v) _ e1
            λ bound a e2.
              >>=-elim
                (u64_field json numbers hex "missing rekey_age_seconds" (codes "rekey_age_seconds")
                  v)
                _ e2
                λ age b e3.
                  >>=-elim (restore_secrets_of json numbers hex (get (codes "epoch_secrets") v)) _
                    e3
                    λ secrets c e4.
                      >>=-elim (restore_kam json numbers hex (get (codes "current_kam") v)) _ e4
                        λ kam _ e5.
                          >>=-elim
                            (restore_ratchet_of json numbers hex bound age secrets
                              (get (codes "ratchet") v))
                            _ e5
                            λ current d e6.
                              let h =
                                restore_secrets_of_sound (get (codes "epoch_secrets") v) secrets
                                  c in
                              subst (IsStored numbers) (ok_injective e6) (record {
                                bound_u64 =
                                    u64_field-IsU64 "missing rekey_msg_bound"
                                      (codes "rekey_msg_bound") v bound a;
                                age_u64 =
                                    u64_field-IsU64 "missing rekey_age_seconds"
                                      (codes "rekey_age_seconds") v age b;
                                distinct = h.0;
                                secrets = h.1;
                                outbound = λ r k.
                                    let o =
                                      restore_ratchet_of_sound bound age secrets
                                        (get (codes "ratchet") v) current d r k in
                                    record {
                                      secret_stored = o.secret_stored;
                                      epoch_u64 = o.epoch_u64;
                                      index_u64 = o.index_u64;
                                      same_bound = o.same_bound;
                                      same_age = o.same_age;
                                      finite = o.finite;
                                    };
                              })
