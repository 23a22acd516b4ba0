-- ===== src/DmSession/Snapshot/Stored.antt =====
-- What `snapshot` can write and `restore` can read back.
use sk_core.Prelude.{ℕ, ◌≡◌, some}
use sk_core.Prelude.Bytes.{Text, IsU64}
use sk_core.Prelude.Maps.{lookup}
use sk_core.Prelude.Maps.Distinct.{Distinct, AllEntries}
use sk_core.Json.Access.{JsonNumbers}
use sk_core.Ratchet.{DmRatchet}
use sk_core.DmSession.{DmSession, session_with_bounds}
use sk_core.DmSession.Snapshot.Secrets.{IsSecret}

module _ {N F : Type 0} (numbers : JsonNumbers N F) where
  -- A time that JSON can hold.
  abbrev pub IsFinite : F → Type 0
  IsFinite t = (n : N) × (numbers.from_f64 t ≡ some n)

  -- The outbound ratchet of a session: its secret is stored, its bounds are the session's.
  pub record RatchetStored (s : DmSession F) (r : DmRatchet F) : Type 0 where
    pub secret_stored : lookup r.epoch s.epoch_secrets ≡ some r.epoch_secret
    pub epoch_u64 : IsU64 r.epoch
    pub index_u64 : IsU64 r.message_index
    pub same_bound : r.rekey_msg_bound ≡ s.rekey_msg_bound
    pub same_age : r.rekey_age_seconds ≡ s.rekey_age_seconds
    pub finite : IsFinite r.epoch_started_at

  pub record IsStored (s : DmSession F) : Type 0 where
    pub bound_u64 : IsU64 s.rekey_msg_bound
    pub age_u64 : IsU64 s.rekey_age_seconds
    pub distinct : Distinct s.epoch_secrets
    pub secrets : AllEntries IsSecret s.epoch_secrets
    pub outbound : (r : DmRatchet F) → s.current ≡ some r → RatchetStored s r

  pub session_with_bounds-IsStored :
      (peer : Text) (bound age : ℕ)
      → IsU64 bound
      → IsU64 age
      → IsStored (session_with_bounds peer bound age)
  unfolding session_with_bounds
  session_with_bounds-IsStored peer bound age hb ha = record {
    bound_u64 = hb;
    age_u64 = ha;
    distinct = tt;
    secrets = tt;
    outbound = λ r e. cc e;
  }
