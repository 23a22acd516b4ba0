-- ===== src/DmSession/Snapshot/Answers.antt =====
-- Every answer of `restore`.
use sk_core.Prelude.{
  ℕ, ◌≡◌, refl, sym, Bool, true, false, Option, none, some, List, [], String, length, ◌==◌,
  Option-cases, inl, inr, Bool-cases,
}
use mathlib.Core.Path.{subst}
use sk_core.Prelude.Bytes.{Bytes, Text, codes}
use sk_core.Prelude.Maps.{lookup, insert}
use sk_core.Prelude.Decimal.{parse_u64}
use sk_core.Prelude.Outcome.{Outcome, ok, err, panic, ◌>>=◌, guard, ok_or}
use sk_core.Json.{Value, Fields, SerdeJson, end, field}
use sk_core.Json.Access.{
  JsonNumbers, JsonNumbersLaws, get, as_str, as_object, is_null, value_as_u64, value_as_f64,
}
use sk_core.Ratchet.{epoch_secret_len}
use sk_core.DmSession.{DmSession, DmSessionError}
use sk_core.DmSession.Snapshot.{
  Hex, bad, u64_field, f64_field, str_field, restore_secrets, restore_secrets_of, restore_kam,
  restore_ratchet, restore_ratchet_of, restore,
}
use sk_core.DmSession.Snapshot.Stored.{IsStored}
use sk_core.DmSession.Snapshot.Sound.{restore-IsStored}

-- No panic, and no error but that of a bad snapshot.
abbrev OnlyBad : {A : Type 0} → Outcome DmSessionError A → Type 0
OnlyBad (ok a) = Unit {0}
OnlyBad (err e) = (m : String) × (e ≡ bad m)
OnlyBad panic = ⊥

>>=-OnlyBad :
    {A B : Type 0} (m : Outcome DmSessionError A) (f : A → Outcome DmSessionError B)
    → OnlyBad m
    → ((a : A) → OnlyBad (f a))
    → OnlyBad (m >>= f)
>>=-OnlyBad (ok a) f h k = k a
>>=-OnlyBad (err e) f h k = h
>>=-OnlyBad panic f h k = h

ok_or-OnlyBad : {A : Type 0} (o : Option A) (m : String) → OnlyBad (ok_or o (bad m))
ok_or-OnlyBad none m = (m, refl)
ok_or-OnlyBad (some a) m = tt

guard-OnlyBad : (b : Bool) (m : String) → OnlyBad (guard b (bad m))
guard-OnlyBad true m = tt
guard-OnlyBad false m = (m, refl)

-- How `restore` answers.
pub data RestoreAnswer {N F : Type 0} (numbers : JsonNumbers N F)
    : Outcome DmSessionError (DmSession F) → Type 0 where
  restored : (s : DmSession F) → IsStored numbers s → RestoreAnswer numbers (ok s)
  rejected : (m : String) → RestoreAnswer numbers (err (bad m))

module _ {N F : Type 0} (json : SerdeJson N) (numbers : JsonNumbers N F) (hex : Hex) where
  u64_field-OnlyBad :
      (m : String) (key : Text) (v : Value N) → OnlyBad (u64_field json numbers hex m key v)
  unfolding u64_field
  u64_field-OnlyBad m key v =
      >>=-OnlyBad (ok_or (get key v) (bad m)) _ (ok_or-OnlyBad (get key v) m)
        (λ found. ok_or-OnlyBad (value_as_u64 numbers found) m)

  f64_field-OnlyBad :
      (m : String) (key : Text) (v : Value N) → OnlyBad (f64_field json numbers hex m key v)
  unfolding f64_field
  f64_field-OnlyBad m key v =
      >>=-OnlyBad (ok_or (get key v) (bad m)) _ (ok_or-OnlyBad (get key v) m)
        (λ found. ok_or-OnlyBad (value_as_f64 numbers found) m)

  str_field-OnlyBad :
      (m : String) (key : Text) (v : Value N) → OnlyBad (str_field json numbers hex m key v)
  unfolding str_field
  str_field-OnlyBad m key v =
      >>=-OnlyBad (ok_or (get key v) (bad m)) _ (ok_or-OnlyBad (get key v) m)
        (λ found. ok_or-OnlyBad (as_str found) m)

  restore_secrets-OnlyBad :
      (fs : Fields N) (acc : List (ℕ × Bytes)) → OnlyBad (restore_secrets json numbers hex fs acc)
  unfolding restore_secrets
  restore_secrets-OnlyBad end acc = tt
  restore_secrets-OnlyBad (field k v rest) acc =
      >>=-OnlyBad _ _ (ok_or-OnlyBad (parse_u64 k) "bad epoch key") λ epoch.
        >>=-OnlyBad _ _ (ok_or-OnlyBad (as_str v) "secret not str") λ text.
          >>=-OnlyBad _ _ (ok_or-OnlyBad (hex.decode text) "bad secret hex") λ raw.
            >>=-OnlyBad _ _ (guard-OnlyBad (length raw == epoch_secret_len) "secret wrong length")
              λ _. restore_secrets-OnlyBad rest (insert epoch raw acc)

  restore_secrets_of-OnlyBad :
      (o : Option (Value N)) → OnlyBad (restore_secrets_of json numbers hex o)
  unfolding restore_secrets_of
  restore_secrets_of-OnlyBad none = tt
  restore_secrets_of-OnlyBad (some v) = elim (Option-cases (as_object v)) [
    | inl e ↦ rw (restore_secrets_of, e) tt
    | inr (fs, e) ↦ rw (restore_secrets_of, e) (restore_secrets-OnlyBad fs [])
  ]

  restore_kam-OnlyBad : (o : Option (Value N)) → OnlyBad (restore_kam json numbers hex o)
  unfolding restore_kam
  restore_kam-OnlyBad none = tt
  restore_kam-OnlyBad (some v) = elim (Option-cases (as_str v)) [
    | inl e ↦ rw (restore_kam, e) tt
    | inr (h, e) ↦
        rw (restore_kam, e)
          (>>=-OnlyBad (ok_or (hex.decode h) (bad "bad current_kam hex")) (λ w. ok (some w))
            (ok_or-OnlyBad (hex.decode h) "bad current_kam hex") (λ w. tt))
  ]

  restore_ratchet-OnlyBad :
      (bound age : ℕ) (secrets : List (ℕ × Bytes)) (v : Value N)
      → OnlyBad (restore_ratchet json numbers hex bound age secrets v)
  unfolding restore_ratchet
  restore_ratchet-OnlyBad bound age secrets v =
      >>=-OnlyBad _ _ (u64_field-OnlyBad "ratchet.epoch" (codes "epoch") v) λ epoch.
        >>=-OnlyBad _ _ (u64_field-OnlyBad "ratchet.message_index" (codes "message_index") v)
          λ index.
            >>=-OnlyBad _ _
              (f64_field-OnlyBad "ratchet.epoch_started_at" (codes "epoch_started_at") v)
              λ start.
                >>=-OnlyBad _ _
                  (ok_or-OnlyBad (lookup epoch secrets) "ratchet epoch has no stored secret")
                  λ secret. tt

  restore_ratchet_of-OnlyBad :
      (bound age : ℕ) (secrets : List (ℕ × Bytes)) (o : Option (Value N))
      → OnlyBad (restore_ratchet_of json numbers hex bound age secrets o)
  unfolding restore_ratchet_of
  restore_ratchet_of-OnlyBad bound age secrets none = tt
  restore_ratchet_of-OnlyBad bound age secrets (some v) = elim (Bool-cases (is_null v)) [
    | inl e ↦ rw (restore_ratchet_of, e) tt
    | inr e ↦
        rw (restore_ratchet_of, e)
          (>>=-OnlyBad (restore_ratchet json numbers hex bound age secrets v) (λ r. ok (some r))
            (restore_ratchet-OnlyBad bound age secrets v) (λ r. tt))
  ]

  restore-OnlyBad : (v : Value N) → OnlyBad (restore json numbers hex v)
  unfolding restore
  restore-OnlyBad v = >>=-OnlyBad _ _ (str_field-OnlyBad "missing peer" (codes "peer") v) λ peer.
      >>=-OnlyBad _ _ (u64_field-OnlyBad "missing rekey_msg_bound" (codes "rekey_msg_bound") v)
        λ bound.
          >>=-OnlyBad _ _
            (u64_field-OnlyBad "missing rekey_age_seconds" (codes "rekey_age_seconds") v)
            λ age.
              >>=-OnlyBad _ _ (restore_secrets_of-OnlyBad (get (codes "epoch_secrets") v))
                λ secrets.
                  >>=-OnlyBad _ _ (restore_kam-OnlyBad (get (codes "current_kam") v)) λ kam.
                    >>=-OnlyBad _ _
                      (restore_ratchet_of-OnlyBad bound age secrets (get (codes "ratchet") v))
                      λ current. tt

  -- Whatever JSON value it is given, `restore` never panics: it answers the error of a bad snapshot, or
  -- a session that is well-formed. The numbers of such a session are `u64`s, every epoch has one
  -- secret, of 32 bytes, and the outbound ratchet uses the stored secret of its epoch and the bounds
  -- of the session.
  pub restore_answer :
      (laws : JsonNumbersLaws json numbers) (v : Value N)
      → RestoreAnswer numbers (restore json numbers hex v)
  restore_answer laws v =
      answer (restore json numbers hex v) (restore-OnlyBad v)
        (restore-IsStored json numbers hex laws v)
    where
      answer :
          (o : Outcome DmSessionError (DmSession F))
          → OnlyBad o
          → ((s : DmSession F) → o ≡ ok s → IsStored numbers s)
          → RestoreAnswer numbers o
      answer (ok s) h k = restored s (k s refl)
      answer (err e) h k = subst (λ x. RestoreAnswer numbers (err x)) (sym h.1) (rejected h.0)
      answer panic h k = absurd h
