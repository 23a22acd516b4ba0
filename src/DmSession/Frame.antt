-- ===== src/DmSession/Frame.antt =====
-- What it means that a frame carries a plaintext under an epoch secret.
use sk_core.Prelude.{
  ℕ, ◌≡◌, refl, Option, none, some, [], ◌∷◌, ◌++◌, length, arith, append-eq_parts, length-append,
}
use sk_core.Prelude.Bytes.{Bytes, IsU64, u64_be, be_bytes_injective, length-be_bytes}
use sk_core.Prelude.Outcome.{ok}
use sk_core.Crypto.{Crates}
use sk_core.Crypto.Calls.{decrypt}
use sk_core.Ratchet.{derive_dm_message_key, unwrap_dm_epoch_secret}
use sk_core.DmSession.{SealedDmFrame, DmSessionError, open_failed, frame_aad, aad_prefix}

-- The AAD separates the slots that are numbered by `u64`s: two that agree are of one epoch and
-- index.
frame_aad_injective :
    (epoch index epoch' index' : ℕ)
    → IsU64 epoch
    → IsU64 index
    → IsU64 epoch'
    → IsU64 index'
    → frame_aad epoch index ≡ frame_aad epoch' index'
    → (epoch ≡ epoch') × (index ≡ index')
unfolding frame_aad
frame_aad_injective epoch index epoch' index' he hi he' hi' e =
    let rest =
      (append-eq_parts (aad_prefix ++ (b'|' ∷ [])) (aad_prefix ++ (b'|' ∷ [])) _ _ refl e).1 in
    let (x, y) =
      append-eq_parts (u64_be epoch) (u64_be epoch') (u64_be index) (u64_be index')
        (omega (arith, length-be_bytes 8 epoch, length-be_bytes 8 epoch')) rest in
    (be_bytes_injective 8 epoch epoch' he he' x, be_bytes_injective 8 index index' hi hi' y)

pub length-frame_aad : (epoch index : ℕ) → length (frame_aad epoch index) ≡ 35
unfolding frame_aad
length-frame_aad epoch index = omega (
  arith,
  length-append (u64_be epoch) (u64_be index),
  length-be_bytes 8 epoch,
  length-be_bytes 8 index,
)

module _ (c : Crates) (priv : Bytes) where
  -- A KAM, where there is one, unwraps to the secret.
  abbrev pub KamOf : Bytes → Option Bytes → Type 0
  KamOf secret none = Unit {0}
  KamOf secret (some wrapped) = unwrap_dm_epoch_secret c wrapped priv ≡ ok secret

  pub record FrameOf (secret plaintext : Bytes) (f : SealedDmFrame) : Type 0 where
    pub key : Bytes
    pub derived : derive_dm_message_key c secret f.epoch f.index ≡ ok key
    pub opens :
        decrypt c {E = DmSessionError} open_failed key f.nonce (frame_aad f.epoch f.index) f.body
        ≡ ok plaintext
    pub kam_of : KamOf secret f.kam
