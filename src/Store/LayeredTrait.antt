-- ===== src/Store/LayeredTrait.antt =====
-- src/store/layered_store_trait.rs: what the layered store asks of its two stores, beyond
-- `SessionStore`.
use ruts.Prelude.{String, ℤ, Option, List}
use ruts.Outcome.{Action}
use ruts.HashMap.{HashMap}
use ruts.SessionId.{SessionId}
use ruts.Store.Codec.{Error, Bytes, Codec}
use ruts.Store.SessionMap.{SessionMap}
use ruts.Store.Trait.{SessionStore}

-- a field, its encoded value, and its lifetime in the hot store
abbrev pub Pair : Type 0
Pair = String × Bytes × Option ℤ

pub record LayeredHotStore (store : SessionStore) : Type 1 where
  pub set_multiple : SessionId → List Pair → Action store.State Error ℤ

pub record LayeredColdStore (store : SessionStore) : Type 1 where
  pub get_all_with_meta :
      SessionId → Action store.State Error (Option (SessionMap × HashMap (Option ℤ)))
  pub set_with_meta :
      {T : Type 0}
      → Codec T
      → SessionId
      → String
      → T
      → ℤ
      → ℤ
      → Option ℤ
      → Action store.State Error ℤ
  pub set_and_rename_with_meta :
      {T : Type 0}
      → Codec T
      → SessionId
      → SessionId
      → String
      → T
      → ℤ
      → ℤ
      → Option ℤ
      → Action store.State Error ℤ
