-- ===== src/Lib.antt =====
-- The hybrid post-quantum core of this repository: the KEM, the two ratchets, DM sessions, sealed
-- messages, the routing envelope, anonymous queues, the suite registry, the self-report and the
-- bindings.
--
-- The parts and their files (paths from the repository's root):
--   * Crypto: the third-party crates x25519-dalek, ml-kem, hkdf with sha2, and aes-gcm, as a record of
--     operations with laws; Crypto/Calls holds the forms in which the sources call them.
--   * Json: the values of serde_json, and what the sources use of that crate; Json/Access holds the
--     accessors of a value.
--   * Kem: src/kem.rs. `hybrid_keypair`, `hybrid_encap` and `hybrid_decap` keep their names; Kem/Sealing
--     is the construction that the four sealing modules share.
--   * Ratchet: src/ratchet.rs. The methods of `DmRatchet` take the ratchet as an argument and return
--     it where they change it: `new` is `new_ratchet`, `with_bounds` and `message_key` keep their
--     names, and the method `should_rekey` is `ratchet_should_rekey`.
--   * GroupRatchet: src/group_ratchet.rs, in the same way.
--   * DmSession: src/dm_session.rs, which drives a `DmRatchet`. The field `ratchet` is `current` here,
--     `open` is `open_frame`, and DmSession/Token holds the wire token; Token/Wire compares the frames that
--     a token can hold with what the parser accepts. `seal` is composed of `begin_at`, `begin_epoch` and
--     `seal_frame`, and `open_frame` of `accept_kam` and `open_body`.
--     DmSession/Flow is one direction of a conversation: the session that seals, the one that opens, and
--     the frames between them. DmSession/Delivery puts a sender and a receiver at the ends of a channel
--     that loses, repeats, reorders and alters frames: a step relation and its reachable worlds.
--     DmSession/Conversation does the same for two sessions that both seal and open and that restart from
--     their snapshots. DmSession/Forged is about a KAM that the peer has not made, which the channel of
--     these two never brings. DmSession/Rekeying follows a sender through the messages of an epoch.
--     DmSession/Snapshot holds `snapshot` and `restore`: what both read
--     and write is in Snapshot/Secrets and Snapshot/Stored, and Snapshot/Alike and Snapshot/Behaviour run a
--     session and its restored copy side by side.
--   * Pqdm: src/pqdm.rs. The map that the AAD is written from is `lock_fields`.
--   * Pqroute: src/pqroute.rs, with its canonical JSON in Pqroute/Canonical. Canonical/Reader and
--     Canonical/Parser are a reader of JSON that the writer is compared with; Canonical/Normal puts the
--     entries of objects in order; Canonical/Order is about the order in which they stand.
--   * AnonQueue: src/anon_queue.rs. The loop of `new_queue_pair` runs over the list of ids that the
--     generator gives.
--   * Suites: src/suites.rs. The methods of the enums, of `CryptoSuite` and of `Registry` are functions
--     (`SuiteStatus::as_str` is `status_as_str`), and the registry's `HashMap` is `put` and `find`.
--     Suites/Global holds the process-wide registry and the functions over it, Suites/Dict `to_dict`, and
--     Suites/Order is about the order of the listings.
--   * Report: src/report.rs. The notes are put together by `dm_note` and `conversation_note`, whose long
--     ends have names of their own; `surface_of` is the report that `surface_from` asserts to be honest.
--     Report/Summary holds `honest_claim` and `Report::from_surfaces`, and Report/Words the screen on
--     notes that are put together from parts.
--   * Errors: the `Display` impls of the error types, one function for each (`kem_text` for `KemError`).
--   * Bindings: src/frb_api.rs, wasm/src/lib.rs and src/python.rs, one file for each.
--   * Prelude: shared notation and lemmas. Tests: the theorems at concrete inputs, on toy instances of
--     the crates.
--
-- How the code is modelled:
--   * A function returns an `Outcome`: a value, an error or a panic. Slices out of range, `expect` and
--     `Nonce::from_slice` panic as in the source. Operations that change a session return the session
--     beside their outcome, on errors too.
--   * What a function draws from `OsRng` and reads off the clock is an argument. A byte is a number,
--     and hypotheses bound numbers where a property needs it. An addition to a `u64` counter wraps as
--     in a release build, and so does an unchecked sum of `usize`. How many values `usize` has is an
--     argument (`usize`, with the sum in Prelude/Usize) of the functions that add lengths read off the
--     wire: the token parser, `split_outer` and `open_routed`. The properties of these ask for a `usize`
--     of more than 32 bits, which all 64-bit targets have; 32-bit targets, wasm32 among them, are left out
--     there. The parser on these is in DmSession/Token/Narrow. `f64` is a parameter with subtraction,
--     conversion and comparison.
--   * A `HashMap` is an association list, and a `BTreeMap` of JSON an ordered one. The texts of
--     errors are constructors, with the numbers that the texts name; Errors writes them out.
--   * A text is the list of its code points.
--   * No loop of the sources needs fuel: the loops run over lists. The printer of numbers, which stands
--     for `u64::to_string`, runs on the number itself as fuel, which its digits never use up.
--
-- Not modelled: the bridge code that flutter_rust_bridge generates, the registration of the Python
-- module, and the serialization of a report, which `to_json` leaves to serde_json (a parameter).
-- The laws of the crates state their documented behaviour and no cryptographic
-- strength; where a property needs that a ciphertext opens under no other AAD, this is a hypothesis
-- about that ciphertext (`OnlyUnder`).
-- The channel of a conversation forges no KAM: a KAM is sealed to the receiver's public key and names no
-- sender, so that whoever knows the key could have a session store a secret of their own.
pub mod Prelude
pub mod Crypto
pub mod Json
pub mod Kem
pub mod Ratchet
pub mod GroupRatchet
pub mod DmSession
pub mod Pqdm
pub mod Pqroute
pub mod AnonQueue
pub mod Suites
pub mod Report
pub mod Errors
pub mod Bindings
mod Tests
