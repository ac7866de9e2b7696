-- ===== src/Suite/Memory.antt =====
-- The tests of src/store/memory/mod.rs.
use ruts.Prelude.{ℕ, Bool, ◌&&◌, not, none, pos, ltb_ℤ}
use ruts.Outcome.{Action, ◌>>=◌, unwrap}
use ruts.SessionId.{SessionId}
use ruts.Store.Codec.{Error, Codec}
use ruts.Store.Contract.{Timed}
use ruts.Suite.{assert, is_none, is_some, holds}

module _ {T : Type 0} (codec : Codec T) (same : T → T → Bool) (store : Timed) where
  unfoldable pub test_basic_operations : ℕ → SessionId → T → T → Action store.State Error (Unit {0})
  test_basic_operations now session_id user updated_user = do
    ttl ← unwrap (store.set now codec session_id "user" user (pos 30) (pos 30) none)
    _ ← assert (not (ltb_ℤ (pos 30) ttl) && ltb_ℤ (pos 28) ttl)
    retrieved ← unwrap (store.get now codec session_id "user")
    _ ← assert (holds same retrieved user)
    ttl' ← unwrap (store.set now codec session_id "user" updated_user (pos 60) (pos 60) none)
    _ ← assert (not (ltb_ℤ (pos 60) ttl') && ltb_ℤ (pos 58) ttl')
    deleted ← unwrap (store.delete now session_id)
    _ ← assert deleted
    retrieved' ← unwrap (store.get now codec session_id "user")
    assert (is_none retrieved')

  -- `later` is 2.1 seconds after `now`
  unfoldable pub test_expiration :
      (now later : ℕ) → SessionId → T → Action store.State Error (Unit {0})
  test_expiration now later session_id user = do
    _ ← unwrap (store.set now codec session_id "user" user (pos 2) (pos 2) none)
    retrieved ← unwrap (store.get now codec session_id "user")
    _ ← assert (is_some retrieved)
    retrieved' ← unwrap (store.get later codec session_id "user")
    assert (is_none retrieved')

  unfoldable pub test_rename_preserves_data :
      ℕ → (old new : SessionId) → T → Action store.State Error (Unit {0})
  test_rename_preserves_data now old_id new_id user = do
    _ ← unwrap (store.set now codec old_id "f1" user (pos 60) (pos 60) none)
    _ ← unwrap (store.set_and_rename now codec old_id new_id "f2" user (pos 60) (pos 60) none)
    old ← unwrap (store.get now codec old_id "f1")
    _ ← assert (is_none old)
    moved ← unwrap (store.get now codec new_id "f1")
    _ ← assert (is_some moved)
    written ← unwrap (store.get now codec new_id "f2")
    assert (is_some written)
