-- ===== src/Store/Trait.antt =====
-- src/store/store_trait.rs: the `SessionStore` trait that a session runs on.
use ruts.Prelude.{String, ℤ, Option, Bool}
use ruts.Outcome.{Action}
use ruts.SessionId.{SessionId}
use ruts.Store.Codec.{Error, Codec}
use ruts.Store.SessionMap.{SessionMap}

-- The trait. A method's future is an action on the store's own state.
pub record SessionStore : Type 1 where
  pub State : Type 0
  pub get : {T : Type 0} → Codec T → SessionId → String → Action State Error (Option T)
  pub get_all : SessionId → Action State Error (Option SessionMap)
  -- session, field, value, lifetime of the session, of the field, and in the hot cache
  pub set :
      {T : Type 0} → Codec T → SessionId → String → T → ℤ → ℤ → Option ℤ → Action State Error ℤ
  -- the old session, the new one, and as in `set`
  pub set_and_rename :
      {T : Type 0}
      → Codec T
      → SessionId
      → SessionId
      → String
      → T
      → ℤ
      → ℤ
      → Option ℤ
      → Action State Error ℤ
  pub rename_session_id : SessionId → SessionId → Action State Error Bool
  pub remove : SessionId → String → Action State Error ℤ
  pub delete : SessionId → Action State Error Bool
  pub expire : SessionId → ℤ → Action State Error Bool
