-- ===== src/Bindings.antt =====
-- The bindings of the core for Dart, JavaScript and Python: src/frb_api.rs, wasm/src/lib.rs and
-- src/python.rs. An error reaches the client as its text.
pub mod Dart
pub mod Wasm
pub mod Python
pub mod Clients
