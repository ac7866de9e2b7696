-- ===== src/Suite/Postgres.antt =====
-- The tests of src/store/postgres/mod.rs, on the tables that `setup_store` has created. Where a test
-- sleeps, the instant after it is an argument.
use ruts.Prelude.{
  ℕ, Bool, ◌&&◌, not, ◌==◌, Option, none, some, false, pos, ◌==ℤ◌, ltb_ℤ, persistent, gone,
}
use ruts.Outcome.{Action, ◌>>=◌, unwrap}
use ruts.SessionId.{SessionId}
use ruts.Store.Codec.{Error, Codec}
use ruts.Store.SessionMap.{SessionMap, len}
use ruts.Store.Contract.{Timed}
use ruts.Suite.{assert, answer_of, is_none, is_some, is_err, holds}

module _ {T : Type 0} (codec : Codec T) (same : T → T → Bool) (store : Timed) where
  abbrev pub Test : Type 0
  Test = Action store.State Error (Unit {0})

  unfoldable pub test_set_and_get : ℕ → SessionId → (value x : T) → Test
  test_set_and_get now session_id value x = do
    ttl ← unwrap (store.set now codec session_id "field1" value (pos 60) (pos 60) none)
    _ ← assert (ltb_ℤ (pos 55) ttl)
    fetched ← unwrap (store.get now codec session_id "field1")
    _ ← assert (holds same fetched value)
    _ ← unwrap (store.set now codec session_id "field1" x (pos 60) (pos 60) none)
    fetched2 ← unwrap (store.get now codec session_id "field1")
    assert (holds same fetched2 x)

  unfoldable pub test_update_overwrites : ℕ → SessionId → (value updated_value : T) → Test
  test_update_overwrites now session_id value updated_value = do
    _ ← unwrap (store.set now codec session_id "field_update" value (pos 60) (pos 60) none)
    _ ← unwrap (store.set now codec session_id "field_update" updated_value (pos 60) (pos 60) none)
    fetched ← unwrap (store.get now codec session_id "field_update")
    assert (holds same fetched updated_value)

  unfoldable pub test_ttl_zero_removes : ℕ → SessionId → T → Test
  test_ttl_zero_removes now session_id x = do
    ttl ← unwrap (store.set now codec session_id "ttl_zero" x (pos 60) (pos 0) none)
    _ ← assert (ttl ==ℤ gone)
    fetched ← unwrap (store.get now codec session_id "ttl_zero")
    assert (is_none fetched)

  unfoldable pub test_ttl_negative_persists : ℕ → SessionId → T → Test
  test_ttl_negative_persists now session_id y = do
    ttl ← unwrap (store.set now codec session_id "ttl_neg" y persistent persistent none)
    _ ← assert (ttl ==ℤ persistent)
    fetched ← unwrap (store.get now codec session_id "ttl_neg")
    assert (is_some fetched)

  unfoldable pub test_expire_method : (now later : ℕ) → SessionId → T → Test
  test_expire_method now later session_id temp = do
    _ ← unwrap (store.set now codec session_id "expire_field" temp (pos 2) (pos 2) none)
    fetched ← unwrap (store.get later codec session_id "expire_field")
    assert (is_none fetched)

  unfoldable pub test_expire_caps_long_lived_fields : (now later : ℕ) → SessionId → T → Test
  test_expire_caps_long_lived_fields now later session_id val = do
    _ ← unwrap (store.set now codec session_id "long" val (pos 3600) (pos 3600) none)
    _ ← unwrap (store.expire now session_id (pos 1))
    fetched ← unwrap (store.get later codec session_id "long")
    assert (is_none fetched)

  unfoldable pub test_remove_downgrades_session_expiry : ℕ → SessionId → (a b : T) → Test
  test_remove_downgrades_session_expiry now session_id a b = do
    _ ← unwrap (store.set now codec session_id "A" a (pos 100) (pos 100) none)
    _ ← unwrap (store.set now codec session_id "B" b (pos 10) (pos 10) none)
    ttl ← unwrap (store.remove now session_id "A")
    assert (ltb_ℤ (pos 0) ttl && not (ltb_ℤ (pos 10) ttl))

  unfoldable pub test_remove_and_delete : ℕ → SessionId → T → Test
  test_remove_and_delete now session_id bye = do
    _ ← unwrap (store.set now codec session_id "to_remove" bye (pos 60) (pos 60) none)
    ttl ← unwrap (store.remove now session_id "to_remove")
    _ ← assert (ttl ==ℤ gone)
    fetched ← unwrap (store.get now codec session_id "to_remove")
    _ ← assert (is_none fetched)
    _ ← unwrap (store.delete now session_id)
    all ← unwrap (store.get_all now session_id)
    assert (is_none all)

  unfoldable pub test_set_with_rename : ℕ → (old new : SessionId) → T → Test
  test_set_with_rename now old_id new_id value = do
    _ ←
        unwrap
          (store.set_and_rename now codec old_id new_id "rename_field" value (pos 60) (pos 60) none)
    old ← unwrap (store.get now codec old_id "rename_field")
    _ ← assert (is_none old)
    new ← unwrap (store.get now codec new_id "rename_field")
    assert (holds same new value)

  unfoldable pub test_rename_collision_fails : ℕ → (old new : SessionId) → (v1 v2 v1_upd : T) → Test
  test_rename_collision_fails now old_id new_id v1 v2 v1_upd = do
    _ ← unwrap (store.set now codec old_id "f1" v1 (pos 60) (pos 60) none)
    _ ← unwrap (store.set now codec new_id "f2" v2 (pos 60) (pos 60) none)
    result ←
        answer_of (store.set_and_rename now codec old_id new_id "f1" v1_upd (pos 60) (pos 60) none)
    assert (is_err result)

  -- the number of fields in an answer of `get_all`
  abbrev counts : ℕ → Option SessionMap → Bool
  unfolding len
  counts n none = false
  counts n (some m) = len m == n

  unfoldable pub test_get_all_multiple_fields : ℕ → SessionId → (v1 v2 : T) → Test
  unfolding len
  test_get_all_multiple_fields now session_id v1 v2 = do
    _ ← unwrap (store.set now codec session_id "f1" v1 (pos 60) (pos 60) none)
    _ ← unwrap (store.set now codec session_id "f2" v2 (pos 60) (pos 60) none)
    all ← unwrap (store.get_all now session_id)
    assert (counts 2 all)

  unfoldable pub test_rename_logic_collision : ℕ → (old new : SessionId) → (v1 v2 : T) → Test
  test_rename_logic_collision now old_id new_id v1 v2 = do
    _ ← unwrap (store.set now codec old_id "existing_field" v1 (pos 60) (pos 60) none)
    check ← unwrap (store.get now codec old_id "existing_field")
    _ ← assert (is_some check)
    result ←
        answer_of
          (store.set_and_rename now codec old_id new_id "existing_field" v2 (pos 60) (pos 60) none)
    _ ← assert (not (is_err result))
    old_val ← unwrap (store.get now codec old_id "existing_field")
    _ ← assert (is_none old_val)
    new_val ← unwrap (store.get now codec new_id "existing_field")
    assert (holds same new_val v2)
