-- ===== src/DmSession.antt =====
-- src/dm_session.rs: the session of one peer, which drives the ratchet through its epochs.
pub mod Token
pub mod Frame
pub mod Sending
pub mod Receiving
pub mod Flow
pub mod Forged
pub mod Delivery
pub mod Conversation
pub mod Rekeying
pub mod Snapshot
use sk_core.Prelude.{
  ℕ, ◌+◌, ◌%◌, ◌^◌, Bool, true, false, Option, none, some, List, [], ◌∷◌, ◌++◌, String, ltb,
  if◌then◌else◌,
}
use sk_core.Prelude.Bytes.{Bytes, Text, codes, u64_be}
use sk_core.Prelude.Maps.{lookup, insert}
use sk_core.Prelude.Outcome.{Outcome, ok, err, panic, ◌>>=◌, ok_or, map_err}
use sk_core.Crypto.{Crates}
use sk_core.Crypto.Calls.{encrypt, decrypt}
use sk_core.Ratchet.{
  DmRatchet, Float64, RatchetError, default_rekey_msg_bound, default_rekey_age_seconds,
  derive_dm_message_key, next_outbound_key, ratchet_should_rekey, unwrap_dm_epoch_secret,
  with_bounds, wrap_dm_epoch_secret,
}

abbrev frame_nonce_len : ℕ
frame_nonce_len = 12

abbrev pub aad_prefix : Bytes
aad_prefix = codes "skchat/dm-frame/v1"

abbrev pub kam_repeat : ℕ
kam_repeat = 3

abbrev pub pqdr_scheme : Text
pqdr_scheme = codes "pqdr1:"

pub frame_aad : ℕ → ℕ → Bytes
frame_aad epoch index = aad_prefix ++ (b'|' ∷ (u64_be epoch ++ u64_be index))

-- The reasons of a `BadToken`.
pub data TokenFault : Type 0 where
  not_a_token : TokenFault
  invalid_base64 : TokenFault
  truncated : TokenFault
  invalid_kam_flag : ℕ → TokenFault
  trailing_bytes : TokenFault
  bad_snapshot : String → TokenFault

pub data DmSessionError : Type 0 where
  bad_token : TokenFault → DmSessionError
  open_failed : DmSessionError
  missing_epoch_secret : ℕ → DmSessionError
  ratchet : RatchetError → DmSessionError

pub record SealedDmFrame : Type 0 where
  pub epoch : ℕ
  pub index : ℕ
  pub nonce : Bytes
  pub body : Bytes
  pub kam : Option Bytes

pub record DmSession (F : Type 0) : Type 0 where
  pub peer : Text
  pub rekey_msg_bound : ℕ
  pub rekey_age_seconds : ℕ
  pub current : Option (DmRatchet F)
  pub epoch_secrets : List (ℕ × Bytes)
  pub current_kam : Option Bytes

-- What one `seal` draws from `OsRng`, and its two readings of the wall clock.
pub record Draws (F : Type 0) : Type 0 where
  pub secret : Bytes
  pub x_eph : Bytes
  pub mlkem_rand : Bytes
  pub wrap_nonce : Bytes
  pub frame_nonce : Bytes
  pub checked_at : F
  pub started_at : F

unfoldable pub session_with_bounds : {F : Type 0} → Text → ℕ → ℕ → DmSession F
session_with_bounds peer rekey_msg_bound rekey_age_seconds = record {
  peer = peer;
  rekey_msg_bound = rekey_msg_bound;
  rekey_age_seconds = rekey_age_seconds;
  current = none;
  epoch_secrets = [];
  current_kam = none;
}

unfoldable pub new_session : {F : Type 0} → Text → DmSession F
unfolding session_with_bounds
new_session peer = session_with_bounds peer default_rekey_msg_bound default_rekey_age_seconds

-- `f()?; rest` for a method that changes the session.
abbrev pub and_then :
    {S E B : Type 0} → S × Outcome E (Unit {0}) → (S → S × Outcome E B) → S × Outcome E B
and_then (s, ok _) f = f s
and_then (s, err e) f = (s, err e)
and_then (s, panic) f = (s, panic)

module _ {F : Type 0} (c : Crates) where
  -- A method that changes the session returns the session beside its result, on errors too.
  pub begin_epoch :
      DmSession F → Draws F → ℕ → Bytes → DmSession F × Outcome DmSessionError (Unit {0})
  begin_epoch s d epoch peer_hybrid_pub =
      elim (wrap_dm_epoch_secret c d.x_eph d.mlkem_rand d.wrap_nonce d.secret peer_hybrid_pub) [
        | ok wrapped ↦ (
          record s {
            epoch_secrets = insert epoch d.secret s.epoch_secrets;
            current =
                some
                  (with_bounds d.started_at epoch d.secret s.rekey_msg_bound s.rekey_age_seconds);
            current_kam = some wrapped;
          },
          ok tt,
        )
        | err e ↦ (s, err (ratchet e))
        | panic ↦ (s, panic)
      ]

  -- `seal` from `let (idx, key, epoch)` on.
  pub seal_frame :
      DmSession F → Draws F → Bytes → DmSession F × Outcome DmSessionError SealedDmFrame
  seal_frame s d plaintext = elim s.current [
    | none ↦ (s, panic)
    | some r ↦ elim (next_outbound_key c {E = DmSessionError} r) [
      | ok (idx, key, r') ↦ (
        record s { current = some r' },
        encrypt c open_failed key d.frame_nonce (frame_aad r.epoch idx) plaintext >>= λ body.
            ok (record {
              epoch = r.epoch;
              index = idx;
              nonce = d.frame_nonce;
              body = body;
              kam = if ltb idx kam_repeat then s.current_kam else none;
            }),
      )
      | err e ↦ (s, err e)
      | panic ↦ (s, panic)
    ]
  ]

  -- `begin_at`: the epoch to begin, if any. The sum wraps as a release build's does.
  pub begin_at : Float64 F → DmSession F → F → Option ℕ
  begin_at fl s now = elim s.current [
    | none ↦ some 0
    | some r ↦ if ratchet_should_rekey fl r none now then some ((r.epoch + 1) % 2 ^ 64) else none
  ]

  unfoldable pub seal :
      Float64 F
      → DmSession F
      → Draws F
      → Bytes
      → Bytes
      → DmSession F × Outcome DmSessionError SealedDmFrame
  unfolding begin_at
  seal fl s d plaintext peer_hybrid_pub = elim (begin_at fl s d.checked_at) [
    | none ↦ seal_frame s d plaintext
    | some epoch ↦
        and_then (begin_epoch s d epoch peer_hybrid_pub) (λ s'. seal_frame s' d plaintext)
  ]

  -- The first half of `open`: a KAM for an epoch not yet known is unwrapped and stored.
  pub accept_kam :
      DmSession F → SealedDmFrame → Bytes → DmSession F × Outcome DmSessionError (Unit {0})
  accept_kam s frame my_hybrid_priv = elim frame.kam [
    | none ↦ (s, ok tt)
    | some wrapped ↦ elim (lookup frame.epoch s.epoch_secrets) [
      | some _ ↦ (s, ok tt)
      | none ↦ elim (unwrap_dm_epoch_secret c wrapped my_hybrid_priv) [
        | ok secret ↦
            (record s { epoch_secrets = insert frame.epoch secret s.epoch_secrets }, ok tt)
        | err e ↦ (s, err (ratchet e))
        | panic ↦ (s, panic)
      ]
    ]
  ]

  -- The second half, which only reads the session.
  pub open_body : DmSession F → SealedDmFrame → Outcome DmSessionError Bytes
  open_body s frame = do
    secret ← ok_or (lookup frame.epoch s.epoch_secrets) (missing_epoch_secret frame.epoch)
    key ← map_err ratchet (derive_dm_message_key c secret frame.epoch frame.index)
    decrypt c open_failed key frame.nonce (frame_aad frame.epoch frame.index) frame.body

  pub open_frame : DmSession F → SealedDmFrame → Bytes → DmSession F × Outcome DmSessionError Bytes
  open_frame s frame my_hybrid_priv =
      and_then (accept_kam s frame my_hybrid_priv) (λ s'. (s', open_body s' frame))

  unfoldable pub epoch_secret_for_test : DmSession F → ℕ → Option Bytes
  epoch_secret_for_test s epoch = lookup epoch s.epoch_secrets
