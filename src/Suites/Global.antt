-- ===== src/Suites/Global.antt =====
-- src/suites.rs: the process-wide registry and the functions over it.
use sk_core.Prelude.{Bool, Option, List}
use sk_core.Prelude.Bytes.{Text}
use sk_core.Suites
use sk_core.Suites.{CryptoSuite, Registry, SuiteStatus, seeded}

-- It is seeded once, when it is first asked for, and nothing is registered in it later.
abbrev global : Registry
global = seeded

abbrev pub get_suite : Text → Option CryptoSuite
get_suite suite_id = Suites.get_suite global suite_id

abbrev all_suites : List CryptoSuite
all_suites = Suites.all_suites global

abbrev active_suites : List CryptoSuite
active_suites = Suites.active_suites global

abbrev pub suite_status : Text → SuiteStatus
suite_status suite_id = Suites.suite_status global suite_id

abbrev pub is_quantum_resistant : Text → Bool
is_quantum_resistant suite_id = Suites.is_quantum_resistant global suite_id
