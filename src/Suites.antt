-- ===== src/Suites.antt =====
-- src/suites.rs: the registry of crypto suites.
pub mod Registered
pub mod Listing
pub mod Order
pub mod Dict
pub mod Global
use sk_core.Prelude.{
  Bool, true, false, ◌&&◌, not, Option, none, some, List, [], ◌∷◌, map, if◌then◌else◌,
}
use sk_core.Prelude.Bytes.{Text, codes}
use sk_core.Prelude.Texts.{text_eq, text_lt}
use sk_core.Prelude.Sorting.{sort_by}

pub data SuiteKind : Type 0 where
  kem : SuiteKind
  sig : SuiteKind
  aead : SuiteKind

pub data SuiteStatus : Type 0 where
  classical : SuiteStatus
  hybrid_pq : SuiteStatus
  pq : SuiteStatus
  symmetric : SuiteStatus

pub kind_as_str : SuiteKind → Text
kind_as_str kem = codes "kem"
kind_as_str sig = codes "sig"
kind_as_str aead = codes "aead"

unfoldable pub status_as_str : SuiteStatus → Text
status_as_str classical = codes "classical"
status_as_str hybrid_pq = codes "hybrid-pq"
status_as_str pq = codes "pq"
status_as_str symmetric = codes "symmetric"

-- An unknown text is read as `classical`.
pub from_wire : Text → SuiteStatus
from_wire s =
    if text_eq s (codes "hybrid-pq")
    then hybrid_pq
    else if text_eq s (codes "pq")
    then pq
    else if text_eq s (codes "symmetric")
    then symmetric
    else classical

unfoldable pub status_is_quantum_resistant : SuiteStatus → Bool
status_is_quantum_resistant classical = false
status_is_quantum_resistant hybrid_pq = true
status_is_quantum_resistant pq = true
status_is_quantum_resistant symmetric = true

pub record CryptoSuite : Type 0 where
  pub suite_id : Text
  pub kind : SuiteKind
  pub status : SuiteStatus
  pub primitives : List Text
  pub fips_refs : List Text
  pub description : Text
  pub active : Bool
  pub replaces : Option Text

new_suite : Text → SuiteKind → SuiteStatus → List Text → List Text → Text → Bool → CryptoSuite
new_suite suite_id kind status primitives fips_refs description active = record {
  suite_id = suite_id;
  kind = kind;
  status = status;
  primitives = primitives;
  fips_refs = fips_refs;
  description = description;
  active = active;
  replaces = none;
}

replacing : CryptoSuite → Text → CryptoSuite
replacing suite suite_id = record suite { replaces = some suite_id }

unfoldable pub suite_is_quantum_resistant : CryptoSuite → Bool
suite_is_quantum_resistant suite = status_is_quantum_resistant suite.status

abbrev default_at_rest_suite : Text
default_at_rest_suite = codes "aes256-gcm-v1"

abbrev default_kem_suite : Text
default_kem_suite = codes "x25519-pgp-wrap-v1"

-- `by_id` lists the entries of the `HashMap`.
pub record Registry : Type 0 where
  pub by_id : List (Text × CryptoSuite)

-- `HashMap::get` and `HashMap::insert` on texts.
pub find : Text → List (Text × CryptoSuite) → Option CryptoSuite
find id [] = none
find id (entry ∷ rest) = if text_eq id entry.0 then some entry.1 else find id rest

unfoldable pub put : Text → CryptoSuite → List (Text × CryptoSuite) → List (Text × CryptoSuite)
put id suite [] = (id, suite) ∷ []
put id suite (entry ∷ rest) =
    if text_eq id entry.0 then (id, suite) ∷ rest else entry ∷ put id suite rest

empty : Registry
empty = record { by_id = [] }

-- The registry after the call, and the suite that the call returns.
unfoldable pub register : Registry → CryptoSuite → Registry × CryptoSuite
register r suite = (record { by_id = put suite.suite_id suite r.by_id }, suite)

unfoldable pub seeded : Registry
unfolding empty register new_suite replacing
seeded =
    let r =
      (register empty (
        new_suite (codes "x25519-pgp-wrap-v1") kem classical
          (codes "X25519 (Curve25519) PGP key-wrap" ∷ codes "AES-256 session key" ∷ [])
          (codes "RFC 7748" ∷ codes "RFC 9580" ∷ [])
          (codes
            "Classical X25519 PGP key-wrap of an AES-256 session key (skcomms envelope payload / DM wrap today).")
          true)).0 in
    let r' =
      (register r (
        new_suite (codes "aes256-gcm-v1") aead symmetric
          (codes "AES-256-GCM" ∷ codes "HKDF-SHA256" ∷ [])
          (codes "FIPS 197" ∷ codes "SP 800-38D" ∷ codes "SP 800-108" ∷ [])
          (codes
            "AES-256-GCM bulk cipher — Grover-only (~128-bit), quantum-acceptable. Do not migrate.")
          true)).0 in
    (register r' (
      replacing
        (new_suite (codes "x25519-mlkem768") kem hybrid_pq
          (codes "X25519 (ephemeral-static DHKEM)"
            ∷ codes "ML-KEM-768 (FIPS 203, liboqs)"
            ∷ codes "HKDF-SHA256 concat-KDF combiner"
            ∷ [])
          (codes "FIPS 203" ∷ codes "RFC 7748" ∷ codes "RFC 5869" ∷ [])
          (codes
            "LIVE hybrid X25519 || ML-KEM-768 key-encapsulation primitive (sk_pqc::kem). Secret unless BOTH primitives break. Cross-impl interoperable with sk_pqc (Dart) and skcomms.pqkem.")
          true)
        (codes "x25519-pgp-wrap-v1"))).0

unfoldable pub get_suite : Registry → Text → Option CryptoSuite
get_suite r suite_id = find suite_id r.by_id

-- The comparison of the keys `(!active, status, id)`, where `false` comes before `true`.
pub comes_before : CryptoSuite → CryptoSuite → Bool
comes_before a b =
    if a.active && not b.active
    then true
    else if b.active && not a.active
    then false
    else if text_eq (status_as_str a.status) (status_as_str b.status)
    then text_lt a.suite_id b.suite_id
    else text_lt (status_as_str a.status) (status_as_str b.status)

pub values : List (Text × CryptoSuite) → List CryptoSuite
values [] = []
values (entry ∷ rest) = entry.1 ∷ values rest

pub all_suites : Registry → List CryptoSuite
all_suites r = sort_by comes_before (values r.by_id)

pub keep_active : List CryptoSuite → List CryptoSuite
keep_active [] = []
keep_active (s ∷ ss) = if s.active then s ∷ keep_active ss else keep_active ss

pub active_suites : Registry → List CryptoSuite
unfolding all_suites
active_suites r = keep_active (all_suites r)

unfoldable pub suite_status : Registry → Text → SuiteStatus
suite_status r suite_id = elim (get_suite r suite_id) [ none ↦ classical | some s ↦ s.status ]

unfoldable pub is_quantum_resistant : Registry → Text → Bool
is_quantum_resistant r suite_id = elim (get_suite r suite_id) [
  | none ↦ false
  | some s ↦ suite_is_quantum_resistant s
]
