-- ===== src/Suites/Registered.antt =====
-- Registration against lookup, and the wire names of a status.
use sk_core.Prelude.{◌≡◌, ◌≢◌, refl, false, some, List, [], ◌∷◌, inl, inr, Bool-cases, Option-cases}
use mathlib.Core.Path.{subst}
use sk_core.Prelude.Bytes.{Text}
use sk_core.Prelude.Texts.{text_eq, text_eq→eq, text_eq_refl}
use sk_core.Suites.{
  SuiteStatus, classical, hybrid_pq, pq, symmetric, status_as_str, from_wire, CryptoSuite, Registry,
  find, put, register, get_suite, suite_status, is_quantum_resistant, status_is_quantum_resistant,
  suite_is_quantum_resistant,
}

-- Reading the wire name of a status gives the status.
pub from_wire-status_as_str : (status : SuiteStatus) → from_wire (status_as_str status) ≡ status
unfolding from_wire status_as_str text_eq
from_wire-status_as_str classical = refl
from_wire-status_as_str hybrid_pq = refl
from_wire-status_as_str pq = refl
from_wire-status_as_str symmetric = refl

find-put_self :
    (id : Text) (suite : CryptoSuite) (entries : List (Text × CryptoSuite))
    → find id (put id suite entries) ≡ some suite
unfolding find put
find-put_self id suite [] = rw (text_eq_refl id)
find-put_self id suite (entry ∷ rest) = elim (Bool-cases (text_eq id entry.0)) [
  | inl e ↦ rw (e, text_eq_refl id)
  | inr e ↦ rw (e, find, e) (find-put_self id suite rest)
]

find-put_ne :
    (id other : Text) (suite : CryptoSuite) (entries : List (Text × CryptoSuite))
    → text_eq other id ≡ false
    → find other (put id suite entries) ≡ find other entries
unfolding find put
find-put_ne id other suite [] ne = rw ne
find-put_ne id other suite (entry ∷ rest) ne = elim (Bool-cases (text_eq id entry.0)) [
  | inl e ↦
      let apart : text_eq other entry.0 ≡ false =
        subst (λ x. text_eq other x ≡ false) (text_eq→eq id entry.0 e) ne in
      rw (e, find, ne, apart)
  | inr e ↦ rw (e, find, find-put_ne id other suite rest ne)
]

-- After a registration the suite is found under its id, and every other id gives what it gave before.
get_suite-register :
    (r : Registry) (suite : CryptoSuite) (other : Text)
    → (get_suite (register r suite).0 suite.suite_id ≡ some suite)
      × (other ≢ suite.suite_id → get_suite (register r suite).0 other ≡ get_suite r other)
unfolding get_suite register
get_suite-register r suite other = (
  find-put_self suite.suite_id suite r.by_id,
  λ ne.
      find-put_ne suite.suite_id other suite r.by_id
        (elim (Bool-cases (text_eq other suite.suite_id)) [
          | inl e ↦ absurd (ne (text_eq→eq other suite.suite_id e))
          | inr e ↦ e
        ]),
)

-- A suite id is quantum-resistant exactly if its status is, unknown ids included: these are classical,
-- and not resistant.
pub is_quantum_resistant-suite_status :
    (r : Registry) (id : Text)
    → is_quantum_resistant r id ≡ status_is_quantum_resistant (suite_status r id)
unfolding is_quantum_resistant suite_status suite_is_quantum_resistant status_is_quantum_resistant
is_quantum_resistant-suite_status r id = elim (Option-cases (get_suite r id)) [
  | inl e ↦ rw (is_quantum_resistant, suite_status, e)
  | inr (s, e) ↦ rw (is_quantum_resistant, suite_status, e)
]
