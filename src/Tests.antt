-- ===== src/Tests.antt =====
-- Runs of the model on small inputs, and the theorems at inputs that meet their hypotheses.
pub mod Crates
pub mod Memory
pub mod Moved
pub mod Sessions
pub mod Web
pub mod Layered
pub mod Postgres
pub mod Server
pub mod Redis
pub mod AnyStore
pub mod Builder
pub mod Refill
pub mod Scripts
pub mod Lifetimes
pub mod Threads
pub mod Cache
pub mod Suite
pub mod Typed
pub mod Shared
pub mod History
pub mod Expiring
pub mod Examples
pub mod Renamers
pub mod Stale
pub mod Evicted
