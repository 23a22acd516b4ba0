-- ===== src/Tests/Ratchets.antt =====
-- The theorems on the DM and group ratchets at concrete inputs.
use sk_core.Prelude.{ℕ, ◌-◌, ◌≡◌, refl, ◌||◌, none, List, [], ◌∷◌, length, replicate, arith, leb}
use sk_core.Prelude.Bytes.{Bytes}
use sk_core.Prelude.Outcome.{ok}
use sk_core.Kem.{hybrid_keypair}
use sk_core.Ratchet.{
  DmRatchet, Float64, RatchetError, ratchet_should_rekey, with_bounds, wrap_dm_epoch_secret,
  unwrap_dm_epoch_secret,
}
use sk_core.Ratchet.Wrapping.{unwrap-wrap_dm_epoch_secret}
use sk_core.Ratchet.Outbound as DmOutbound
use sk_core.Ratchet.Outbound.{outbound_run-Keyed, should_rekey-outbound_run}
use sk_core.GroupRatchet.{EpochRatchet, GroupRatchetError}
use sk_core.GroupRatchet.Wrapping.{Member, distribute, AllUnwrap, distribute-AllUnwrap}
use sk_core.GroupRatchet.Outbound as GroupOutbound
use sk_core.GroupRatchet.Outbound.{group_slots_separate, group_run-Keyed}
use sk_core.Tests.Toy.{toy, toy_laws}

abbrev clock : Float64 ℕ
clock = record { sub = ◌-◌; from_u64 = λ n. n; geb = λ a b. leb b a }

abbrev secret : Bytes
secret = replicate 32 1

unwrap-wrap_dm_epoch_secret_example :
    let kp = hybrid_keypair (toy []) (replicate 32 7) [] in
    (payload : Bytes) × (wrap_dm_epoch_secret (toy []) [] [] (replicate 12 2) secret kp.public_key
      ≡ ok payload)
    × (unwrap_dm_epoch_secret (toy []) payload kp.private_key ≡ ok secret)
    × (length payload ≡ 1180)
unwrap-wrap_dm_epoch_secret_example =
    unwrap-wrap_dm_epoch_secret (toy []) (toy_laws []) (replicate 32 7) [] [] [] (replicate 12 2)
      secret refl refl refl

abbrev dm_ratchet : DmRatchet ℕ
dm_ratchet = record {
  epoch = 4;
  epoch_secret = secret;
  message_index = 7;
  rekey_msg_bound = 50;
  rekey_age_seconds = 604800;
  epoch_started_at = 100;
}

outbound_run-Keyed_example :
    (keys : List (ℕ × Bytes)) × (DmOutbound.outbound_run (toy []) {E = RatchetError} 3 dm_ratchet
      ≡ ok (keys, record dm_ratchet { message_index = 10 }))
    × (length keys ≡ 3)
    × DmOutbound.Keyed (toy []) secret 4 7 keys
outbound_run-Keyed_example =
    outbound_run-Keyed (toy []) (toy_laws []).hkdf {E = RatchetError} 3 dm_ratchet refl
      (omega arith)

should_rekey-outbound_run_example :
    (keys : List (ℕ × Bytes)) × (r : DmRatchet ℕ) × (DmOutbound.outbound_run
        (toy [])
        {E = RatchetError}
        50
        (with_bounds 100 4 secret 50 604800)
      ≡ ok (keys, r))
    × (ratchet_should_rekey clock r none 130
        ≡ (leb 50 50 || clock.geb (clock.sub 130 100) (clock.from_u64 604800)))
should_rekey-outbound_run_example =
    should_rekey-outbound_run (toy []) (toy_laws []).hkdf {E = RatchetError} clock 100 130 4 50 50
      604800 secret refl (omega arith)

abbrev member_of : ℕ → Member
member_of n = record {
  x_seed = replicate 32 n;
  mlkem_seed = [];
  x_eph = [];
  mlkem_rand = [];
  nonce = replicate 12 n;
  x_seed_32 = refl;
  nonce_12 = refl;
}

distribute-AllUnwrap_example :
    (payloads : List Bytes) × (distribute (toy []) secret (member_of 1 ∷ member_of 2 ∷ [])
      ≡ ok payloads)
    × AllUnwrap (toy []) secret (member_of 1 ∷ member_of 2 ∷ []) payloads
distribute-AllUnwrap_example =
    distribute-AllUnwrap (toy []) (toy_laws []) secret (member_of 1 ∷ member_of 2 ∷ []) refl

abbrev group_ratchet : EpochRatchet ℕ
group_ratchet = record {
  epoch = 4;
  epoch_secret = secret;
  message_index = 7;
  rekey_msg_bound = 50;
  rekey_age_seconds = 604800;
  epoch_started_at = 100;
}

group_run-Keyed_example :
    (keys : List (ℕ × Bytes)) × (GroupOutbound.outbound_run
        (toy [])
        {E = GroupRatchetError}
        3
        group_ratchet
      ≡ ok (keys, record group_ratchet { message_index = 10 }))
    × (length keys ≡ 3)
    × GroupOutbound.Keyed (toy []) secret 4 7 keys
group_run-Keyed_example =
    group_run-Keyed (toy []) (toy_laws []).hkdf {E = GroupRatchetError} 3 group_ratchet refl
      (omega arith)
