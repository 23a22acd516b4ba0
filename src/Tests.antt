-- ===== src/Tests.antt =====
-- The examples: the theorems at concrete inputs, over a toy instance of the crates.
mod Toy
mod ToyJson
mod Sessions
mod Tokens
mod Snapshots
mod Conversations
mod Exchanges
mod Reports
mod Clients
mod Sealings
mod Ratchets
mod Routing
mod Canonicals
mod Queues
mod Registries
