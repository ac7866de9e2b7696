-- ===== src/Suite/Redis.antt =====
-- The tests of src/store/redis/mod.rs, on a server whose keys `setup_store` has flushed. `elapse` is
-- what the passing of time does to the server where a test sleeps.
use ruts.Prelude.{Bool, none, some, [], ◌∷◌, pos, ◌==ℤ◌, ltb_ℤ, persistent, gone}
use ruts.Outcome.{Action, ok, ◌>>=◌, unwrap, unwrapped}
use ruts.SessionId.{SessionId}
use ruts.Store.Codec.{Error, Codec, serialize_value}
use ruts.Store.Trait.{SessionStore}
use ruts.Store.LayeredTrait.{LayeredHotStore}
use ruts.Suite.{assert, answer_of, is_none, is_err, holds}

module _ {T : Type 0} (codec : Codec T) (same : T → T → Bool) (store : SessionStore)
    (elapse : store.State → store.State) where
  abbrev pub Test : Type 0
  Test = Action store.State Error (Unit {0})

  unfoldable pub test_set_and_get : SessionId → T → Test
  test_set_and_get sid value1 = do
    ttl ← unwrap (store.set codec sid "field1" value1 (pos 10) (pos 10) none)
    _ ← assert (ttl ==ℤ pos 10)
    v ← unwrap (store.get codec sid "field1")
    assert (holds same v value1)

  -- `sleep`
  abbrev sleep : Test
  sleep s = (ok tt, elapse s)

  unfoldable pub test_set_with_field_ttl : SessionId → T → Test
  test_set_with_field_ttl sid temp = do
    _ ← unwrap (store.set codec sid "f" temp (pos 1) (pos 1) none)
    v ← unwrap (store.get codec sid "f")
    _ ← assert (holds same v temp)
    _ ← sleep
    v' ← unwrap (store.get codec sid "f")
    assert (is_none v')

  unfoldable pub test_set_updates_session_persistence : SessionId → (x y : T) → Test
  test_set_updates_session_persistence sid x y = do
    ttl ← unwrap (store.set codec sid "f" x (pos 5) (pos 5) none)
    _ ← assert (ttl ==ℤ pos 5)
    ttl' ← unwrap (store.set codec sid "f" y persistent persistent none)
    assert (ttl' ==ℤ persistent)

  unfoldable pub test_rename_success : (old_sid new_sid : SessionId) → (foo bar : T) → Test
  test_rename_success old_sid new_sid foo bar = do
    _ ← unwrap (store.set codec old_sid "f" foo persistent persistent none)
    _ ← unwrap (store.set_and_rename codec old_sid new_sid "g" bar (pos 60) (pos 60) none)
    old_v ← unwrap (store.get codec old_sid "f")
    _ ← assert (is_none old_v)
    v ← unwrap (store.get codec new_sid "f")
    _ ← assert (holds same v foo)
    v' ← unwrap (store.get codec new_sid "g")
    assert (holds same v' bar)

  unfoldable pub test_rename_conflict_fails :
      (old_sid new_sid : SessionId) → (foo bar baz : T) → Test
  test_rename_conflict_fails old_sid new_sid foo bar baz = do
    _ ← unwrap (store.set codec old_sid "f" foo (pos 60) (pos 60) none)
    _ ← unwrap (store.set codec new_sid "existing" bar (pos 60) (pos 60) none)
    result ← answer_of (store.set_and_rename codec old_sid new_sid "g" baz (pos 60) (pos 60) none)
    _ ← assert (is_err result)
    v ← unwrap (store.get codec new_sid "existing")
    assert (holds same v bar)

  unfoldable pub test_remove_and_delete : SessionId → (v1 v2 : T) → Test
  test_remove_and_delete sid v1 v2 = do
    _ ← unwrap (store.set codec sid "f1" v1 (pos 10) (pos 10) none)
    _ ← unwrap (store.set codec sid "f2" v2 (pos 10) (pos 10) none)
    ttl ← unwrap (store.remove sid "f1")
    _ ← assert (ltb_ℤ (pos 0) ttl)
    ttl' ← unwrap (store.remove sid "f2")
    assert (ttl' ==ℤ gone)

  module _ (hot : LayeredHotStore store) where
    unfoldable pub test_set_multiple : SessionId → (one two : T) → Test
    unfolding serialize_value
    test_set_multiple sid one two = do
      a_val ← λ s. (unwrapped (serialize_value codec one), s)
      b_val ← λ s. (unwrapped (serialize_value codec two), s)
      ttl ←
          unwrap
            (hot.set_multiple sid (("a", a_val, some (pos 3)) ∷ ("b", b_val, some persistent) ∷ []))
      _ ← assert (ttl ==ℤ persistent)
      v ← unwrap (store.get codec sid "a")
      _ ← assert (holds same v one)
      v' ← unwrap (store.get codec sid "b")
      assert (holds same v' two)
