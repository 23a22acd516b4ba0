-- ===== src/Report.antt =====
-- src/report.rs: the self-report of the crypto surfaces.
pub mod Words
pub mod Notes
pub mod Surfaces
pub mod Summary
pub mod Claims
pub mod Totals
use sk_core.Prelude.{
  ℕ, ◌+◌, ◌-◌, Bool, true, false, not, ◌||◌, ◌&&◌, Option, none, some, List, [], ◌∷◌, ◌++◌, map,
  length, ◌==◌, leb, ltb, if◌then◌else◌,
}
use sk_core.Prelude.Bytes.{Text, codes}
use sk_core.Prelude.Texts.{text_eq}
use sk_core.Prelude.Decimal.{decimal}
use sk_core.Prelude.Outcome.{Outcome, ok, err, panic, ◌>>=◌, ◌>>◌, expect}
use sk_core.Suites.{SuiteStatus, classical, status_as_str, CryptoSuite, suite_is_quantum_resistant}
use sk_core.Suites.Global.{get_suite}

abbrev pub forbidden_words : List Text
forbidden_words = codes "quantum-proof" ∷ codes "quantum-safe" ∷ codes "unbreakable" ∷ []

abbrev default_conversation_suite : Text
default_conversation_suite = codes "x25519-pgp-wrap-v1"

abbrev hybrid_kem_suite : Text
hybrid_kem_suite = codes "x25519-mlkem768"

-- `u8::to_ascii_lowercase` and `to_ascii_uppercase` on a code point.
unfoldable pub lower_char : ℕ → ℕ
lower_char c = if leb b'A' c && leb c b'Z' then c + 32 else c

pub upper_char : ℕ → ℕ
upper_char c = if leb b'a' c && leb c b'z' then c - 32 else c

unfoldable pub to_ascii_lowercase : Text → Text
to_ascii_lowercase [] = []
to_ascii_lowercase (c ∷ s) = lower_char c ∷ to_ascii_lowercase s

pub to_ascii_uppercase : Text → Text
to_ascii_uppercase [] = []
to_ascii_uppercase (c ∷ s) = upper_char c ∷ to_ascii_uppercase s

-- `str::starts_with` and `str::contains`, the pattern last.
unfoldable pub starts_with : Text → Text → Bool
starts_with s [] = true
starts_with [] (d ∷ w) = false
starts_with (c ∷ s) (d ∷ w) = if c == d then starts_with s w else false

unfoldable pub contains : Text → Text → Bool
unfolding starts_with
contains [] w = starts_with [] w
contains (c ∷ s) w = starts_with (c ∷ s) w || contains s w

-- `words.iter().any(|w| lower.contains(w))`.
unfoldable pub contains_any : Text → List Text → Bool
contains_any s [] = false
contains_any s (w ∷ ws) = contains s w || contains_any s ws

unfoldable pub is_honest_note : Text → Bool
is_honest_note note = not (contains_any (to_ascii_lowercase note) forbidden_words)

pub data RatchetLevel : Type 0 where
  l2_oneshot : RatchetLevel
  l3_epoch : RatchetLevel

pub level_as_str : RatchetLevel → Text
level_as_str l2_oneshot = codes "L2-oneshot"
level_as_str l3_epoch = codes "L3-epoch"

unfoldable pub level_from_wire : Text → RatchetLevel
level_from_wire s = if text_eq s (codes "L3-epoch") then l3_epoch else l2_oneshot

pub record SurfaceReport : Type 0 where
  pub surface : Text
  pub component : Text
  pub active_suite : Text
  pub status : Text
  pub quantum_resistant : Bool
  pub primitives : List Text
  pub fips_refs : List Text
  pub note : Text

-- The functions of this module have no errors: what they answer is a value or a panic.
unfoldable pub assert_honest : SurfaceReport → Outcome ⊥ (Unit {0})
assert_honest s =
    if is_honest_note s.note
    then if text_eq s.status (codes "classical")
      then if s.quantum_resistant then panic else ok tt
      else ok tt
    else panic

pub record Resolved : Type 0 where
  pub status : SuiteStatus
  pub primitives : List Text
  pub fips_refs : List Text
  pub quantum_resistant : Bool

pub resolve_suite : Text → Resolved
resolve_suite suite_id = elim (get_suite suite_id) [
  | some s ↦ record {
    status = s.status;
    primitives = s.primitives;
    fips_refs = s.fips_refs;
    quantum_resistant = suite_is_quantum_resistant s;
  }
  | none ↦ record {
    status = classical;
    primitives = codes "unknown" ∷ [];
    fips_refs = [];
    quantum_resistant = false;
  }
]

-- The report that `surface_from` builds, before its `assert_honest`.
pub surface_of : Text → Text → Text → Text → SurfaceReport
surface_of surface component suite_id note =
    let r = resolve_suite suite_id in
    record {
      surface = surface;
      component = component;
      active_suite = suite_id;
      status = status_as_str r.status;
      quantum_resistant = r.quantum_resistant;
      primitives = r.primitives;
      fips_refs = r.fips_refs;
      note = note;
    }

pub surface_from : Text → Text → Text → Text → Outcome ⊥ SurfaceReport
unfolding surface_of assert_honest
surface_from surface component suite_id note =
    let report = surface_of surface component suite_id note in assert_honest report >> ok report

pub who : Text → Text
who [] = []
who (c ∷ peer) = codes " with " ++ (c ∷ peer)

-- An empty suite id stands for the default one.
pub or_default : Text → Text
or_default [] = default_conversation_suite
or_default (c ∷ id) = c ∷ id

-- The texts of the notes from their last parameter on.
abbrev pub classical_end : RatchetLevel → Text
classical_end level =
    codes " — HNDL-exposed: recorded ciphertext is retroactively decryptable. The "
    ++ (level_as_str level
        ++ codes
            " ratchet structure provides NO post-quantum confidentiality while the KEM is classical; negotiate the hybrid X25519+ML-KEM-768 (FIPS 203) suite to close the harvest-now-decrypt-later gap.")

abbrev pub epoch_end : Text
epoch_end =
    codes
      ". Each epoch re-derives the chain from a fresh hybrid-KEM secret, so a compromised key neither decrypts past epochs (forward secrecy) nor future ones once healed (post-compromise security). Secure while EITHER the X25519 or the ML-KEM-768 (FIPS 203) leg holds."

abbrev pub oneshot_end : Text
oneshot_end =
    codes
      "sealed with a stateless one-shot hybrid seal — PQ at the published prekey only, no running ratchet. Forward secrecy is limited to prekey rotation (no per-message/per-epoch rekey, no post-compromise security). Secure while EITHER the X25519 or the ML-KEM-768 (FIPS 203) leg holds; upgrade to the L3 epoch-ratchet for FS + PCS."

abbrev pub conversation_end : Bool → Text
conversation_end true =
    codes
      "negotiated the hybrid KEM: the body symmetric key is wrapped via X25519+ML-KEM-768 (PQXDH-style signed prekey) and AES-256-GCM seals the body. Negotiated suite is bound into the AEAD AAD (downgrade-lock). HNDL-resistant."
conversation_end false =
    codes
      "on the CLASSICAL PGP key-wrap (HNDL-exposed). Either the peer advertised no hybrid prekey or a downgrade occurred — recorded honestly. Hybrid engages only when both sides advertise a hybrid prekey."

-- The note by `is_hybrid` and the level.
pub dm_note : Text → Bool → RatchetLevel → ℕ → Text → Text
dm_note suite_id false level epoch peer =
    codes "DM"
    ++ (who peer
        ++ (codes " on the CLASSICAL PGP key-wrap ("
            ++ (suite_id ++ (codes ")" ++ classical_end level))))
dm_note suite_id true l3_epoch epoch peer =
    codes "DM"
    ++ (who peer
        ++ (codes
              " on the running epoch-ratchet, FS + PCS, hybrid X25519+ML-KEM-768 rekey per epoch (epoch "
            ++ (decimal epoch ++ (codes ")" ++ epoch_end))))
dm_note suite_id true l2_oneshot epoch peer = codes "DM" ++ (who peer ++ (codes " " ++ oneshot_end))

pub dm_ratchet_surface_for : Text → RatchetLevel → ℕ → Text → Outcome ⊥ SurfaceReport
unfolding surface_from or_default dm_note
dm_ratchet_surface_for negotiated_suite ratchet_level epoch peer =
    let suite_id = or_default negotiated_suite in
    let resolved = resolve_suite suite_id in
    surface_from (codes "dm") (codes "skchat (DmRatchet)") suite_id
      (dm_note suite_id resolved.quantum_resistant ratchet_level epoch peer)

pub data ConversationKind : Type 0 where
  dm : ConversationKind
  envelope : ConversationKind

pub surface_name : ConversationKind → Text × Text
surface_name envelope = (codes "envelope-payload", codes "skcomms (EnvelopeCrypto)")
surface_name dm = (codes "dm", codes "skchat (ChatCrypto)")

-- The note by `quantum_resistant`.
pub conversation_note : Text → Bool → Text → Text
conversation_note surface resistant peer =
    to_ascii_uppercase surface
    ++ (codes " conversation" ++ (who peer ++ (codes " " ++ conversation_end resistant)))

pub conversation_surface_for : Text → ConversationKind → Text → Outcome ⊥ SurfaceReport
unfolding surface_from or_default surface_name conversation_note
conversation_surface_for negotiated_suite kind peer =
    let suite_id = or_default negotiated_suite in
    let (surface, component) = surface_name kind in
    let resolved = resolve_suite suite_id in
    surface_from surface component suite_id
      (conversation_note surface resolved.quantum_resistant peer)
