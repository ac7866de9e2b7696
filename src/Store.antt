-- ===== src/Store.antt =====
-- src/store/: the stores that keep sessions, a module for each, and what they share.
pub mod Codec
pub mod SessionMap
pub mod Trait
pub mod Contract
pub mod Memory
pub mod LayeredTrait
pub mod Join
pub mod Layered
pub mod Postgres
pub mod Redis
