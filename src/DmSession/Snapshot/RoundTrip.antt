-- ===== src/DmSession/Snapshot/RoundTrip.antt =====
-- A session through `snapshot` and `restore`.
use sk_core.Prelude.{ℕ, ◌≡◌, refl, sym, Option, none, some, List, String, inl, inr, Option-cases}
use sk_core.Prelude.Bytes.{Bytes, Text, IsU64, codes}
use sk_core.Prelude.Maps.{lookup}
use sk_core.Prelude.Texts.{text_eq, text_lt}
use sk_core.Prelude.Outcome.{ok}
use sk_core.Json.{Value, SerdeJson, number, string, object, btree_insert}
use sk_core.Json.Access.{
  JsonNumbers, JsonNumbersLaws, get, get_field, as_str, as_object, is_null, value_as_u64,
  value_as_f64, value_from_f64,
}
use sk_core.Ratchet.{DmRatchet}
use sk_core.DmSession.{DmSession, session_with_bounds}
use sk_core.DmSession.Snapshot.{
  Hex, HexLaws, secrets_value, ratchet_value, kam_value, snapshot, u64_field, f64_field, str_field,
  restore_secrets_of, restore_kam, restore_ratchet, restore_ratchet_of, restore,
}
use sk_core.DmSession.Snapshot.Secrets.{restore_secrets-secrets_value}
use sk_core.DmSession.Snapshot.Stored.{IsStored, RatchetStored}

-- Two sessions that answer alike: their fields are equal, their maps answer every epoch equally.
pub record Same {F : Type 0} (s s' : DmSession F) : Type 0 where
  pub same_peer : s.peer ≡ s'.peer
  pub same_bound : s.rekey_msg_bound ≡ s'.rekey_msg_bound
  pub same_age : s.rekey_age_seconds ≡ s'.rekey_age_seconds
  pub same_current : s.current ≡ s'.current
  pub same_secrets : (epoch : ℕ) → lookup epoch s.epoch_secrets ≡ lookup epoch s'.epoch_secrets
  pub same_kam : s.current_kam ≡ s'.current_kam

module _ {N F : Type 0} (json : SerdeJson N) (numbers : JsonNumbers N F) (hex : Hex) where
  module _ (s : DmSession F) where
    get_peer : get (codes "peer") (snapshot json numbers hex s) ≡ some (string s.peer)
    unfolding snapshot get get_field btree_insert text_eq text_lt
    get_peer = refl

    get_bound :
        get (codes "rekey_msg_bound") (snapshot json numbers hex s)
        ≡ some (number (json.from_u64 s.rekey_msg_bound))
    unfolding snapshot get get_field btree_insert text_eq text_lt
    get_bound = refl

    get_age :
        get (codes "rekey_age_seconds") (snapshot json numbers hex s)
        ≡ some (number (json.from_u64 s.rekey_age_seconds))
    unfolding snapshot get get_field btree_insert text_eq text_lt
    get_age = refl

    get_secrets :
        get (codes "epoch_secrets") (snapshot json numbers hex s)
        ≡ some (object (secrets_value json numbers hex s.epoch_secrets))
    unfolding snapshot get get_field btree_insert text_eq text_lt
    get_secrets = refl

    get_kam :
        get (codes "current_kam") (snapshot json numbers hex s)
        ≡ some (kam_value json numbers hex s.current_kam)
    unfolding snapshot get get_field btree_insert text_eq text_lt
    get_kam = refl

    get_ratchet :
        get (codes "ratchet") (snapshot json numbers hex s)
        ≡ some (ratchet_value json numbers hex s.current)
    unfolding snapshot get get_field btree_insert text_eq text_lt
    get_ratchet = refl

  module _ (r : DmRatchet F) where
    get_epoch :
        get (codes "epoch") (ratchet_value json numbers hex (some r))
        ≡ some (number (json.from_u64 r.epoch))
    unfolding ratchet_value get get_field btree_insert text_eq text_lt
    get_epoch = refl

    get_index :
        get (codes "message_index") (ratchet_value json numbers hex (some r))
        ≡ some (number (json.from_u64 r.message_index))
    unfolding ratchet_value get get_field btree_insert text_eq text_lt
    get_index = refl

    get_start :
        get (codes "epoch_started_at") (ratchet_value json numbers hex (some r))
        ≡ some (value_from_f64 numbers r.epoch_started_at)
    unfolding ratchet_value get get_field btree_insert text_eq text_lt
    get_start = refl

  module _ (number_laws : JsonNumbersLaws json numbers) (hex_laws : HexLaws hex) where
    u64_field-number :
        (m : String) (key : Text) (v : Value N) (n : ℕ)
        → get key v ≡ some (number (json.from_u64 n))
        → IsU64 n
        → u64_field json numbers hex m key v ≡ ok n
    unfolding u64_field value_as_u64
    u64_field-number m key v n e h = rw (e, number_laws.as_u64-from_u64 n h)

    f64_field-finite :
        (m : String) (key : Text) (v : Value N) (t : F) (n : N)
        → get key v ≡ some (value_from_f64 numbers t)
        → numbers.from_f64 t ≡ some n
        → f64_field json numbers hex m key v ≡ ok t
    unfolding f64_field value_as_f64 value_from_f64
    f64_field-finite m key v t n e h = rw (e, value_from_f64, h, number_laws.as_f64-from_f64 t n h)

    restore_kam-kam_value :
        (kam : Option Bytes)
        → restore_kam json numbers hex (some (kam_value json numbers hex kam)) ≡ ok kam
    unfolding restore_kam kam_value as_str
    restore_kam-kam_value none = refl
    restore_kam-kam_value (some wrapped) = rw (hex_laws.decode-encode wrapped)

    restore_ratchet-ratchet_value :
        (s : DmSession F) (r : DmRatchet F) (secrets : List (ℕ × Bytes))
        → RatchetStored numbers s r
        → ((epoch : ℕ) → lookup epoch secrets ≡ lookup epoch s.epoch_secrets)
        → restore_ratchet json numbers hex s.rekey_msg_bound s.rekey_age_seconds secrets
            (ratchet_value json numbers hex (some r))
          ≡ ok r
    unfolding restore_ratchet
    restore_ratchet-ratchet_value s r secrets h same = rw (
      u64_field-number "ratchet.epoch" (codes "epoch") _ r.epoch (get_epoch r) h.epoch_u64,
      u64_field-number "ratchet.message_index" (codes "message_index") _ r.message_index
          (get_index r) h.index_u64,
      f64_field-finite "ratchet.epoch_started_at" (codes "epoch_started_at") _ r.epoch_started_at
          h.finite.0 (get_start r) h.finite.1,
      same r.epoch,
      h.secret_stored,
      sym h.same_bound,
      sym h.same_age,
    )

    restore_ratchet_of-ratchet_value :
        (s : DmSession F) (secrets : List (ℕ × Bytes))
        → IsStored numbers s
        → ((epoch : ℕ) → lookup epoch secrets ≡ lookup epoch s.epoch_secrets)
        → restore_ratchet_of json numbers hex s.rekey_msg_bound s.rekey_age_seconds secrets
            (some (ratchet_value json numbers hex s.current))
          ≡ ok s.current
    unfolding restore_ratchet_of ratchet_value is_null
    restore_ratchet_of-ratchet_value s secrets v same = elim (Option-cases s.current) [
      | inl e ↦ rw e
      | inr (r, e) ↦ rw (e, restore_ratchet-ratchet_value s r secrets (v.outbound r e) same)
    ]

    -- Let the numbers of a session fit a `u64`, let every epoch have one secret, of 32 bytes, and let the
    -- outbound ratchet use the stored secret of its epoch, the bounds of the session and a start time
    -- that JSON can hold. The session is restored from its own snapshot: no call fails, every field is
    -- the one that was written, and every epoch has the secret it had.
    pub restore-snapshot :
        (s : DmSession F)
        → IsStored numbers s
        → (s' : DmSession F) × (restore json numbers hex (snapshot json numbers hex s) ≡ ok s')
          × Same s s'
    unfolding restore restore_secrets_of as_object str_field as_str session_with_bounds
    restore-snapshot s v =
        let (m, restored, same) =
          restore_secrets-secrets_value json numbers hex hex_laws s.epoch_secrets v.secrets
            v.distinct in
        (
          record s { epoch_secrets = m },
          rw (
            get_peer s,
            u64_field-number "missing rekey_msg_bound" (codes "rekey_msg_bound") _ s.rekey_msg_bound
                (get_bound s) v.bound_u64,
            u64_field-number "missing rekey_age_seconds" (codes "rekey_age_seconds") _
                s.rekey_age_seconds (get_age s) v.age_u64,
            get_secrets s,
            restored,
            get_kam s,
            restore_kam-kam_value s.current_kam,
            get_ratchet s,
            restore_ratchet_of-ratchet_value s m v same,
          ),
          record {
            same_peer = refl;
            same_bound = refl;
            same_age = refl;
            same_current = refl;
            same_secrets = λ epoch. sym (same epoch);
            same_kam = refl;
          },
        )
