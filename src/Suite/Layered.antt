-- ===== src/Suite/Layered.antt =====
-- The tests of src/store/layered/mod.rs: Redis before Postgres. `elapse` is what two seconds do to the
-- Redis server, and `later` is an instant two seconds after `now`.
use ruts.Prelude.{ℕ, String, Bool, none, some, pos}
use ruts.Outcome.{Action, ok, ◌>>=◌, unwrap}
use ruts.SessionId.{SessionId, Base64}
use ruts.Store.Codec.{Error, Codec}
use ruts.Store.Trait.{SessionStore}
use ruts.Store.Join.{Race}
use ruts.Store.Layered.{layered_store}
use ruts.Store.Postgres.Tables.{Db}
use ruts.Store.Postgres.Traits.{postgres_store, postgres_meta}
use ruts.Store.Redis.{redis_store, redis_hot}
use ruts.Store.Redis.Server.{Redis}
use ruts.Suite.{assert, is_none, is_some, holds}

module _ (b64 : Base64) (redis : Redis) (duplicate_key : String) (race : Race)
    (elapse : redis.State → redis.State) {T : Type 0} (codec : Codec T) (same : T → T → Bool) where
  abbrev pub Test : Type 0
  Test = Action (redis.State × Db) Error (Unit {0})

  -- `setup_store`: `LayeredStore::new(hot_store, cold_store)`
  abbrev pub store : ℕ → SessionStore
  store now =
      layered_store (redis_store b64 redis) (postgres_store b64 duplicate_key now)
        (redis_hot b64 redis) (postgres_meta b64 duplicate_key now) race

  abbrev sleep : Test
  sleep s = (ok tt, (elapse s.0, s.1))

  unfoldable pub test_layered_cache : (now later : ℕ) → SessionId → T → Test
  test_layered_cache now later session_id test_user = do
    _ ←
        unwrap
          ((store now).set codec session_id "user" test_user (pos 3600) (pos 3600) (some (pos 1)))
    user_from_hit ← unwrap ((store now).get codec session_id "user")
    _ ← assert (holds same user_from_hit test_user)
    _ ← sleep
    user_from_miss ← unwrap ((store later).get codec session_id "user")
    assert (holds same user_from_miss test_user)

  unfoldable pub test_layered_delete : ℕ → SessionId → T → Test
  test_layered_delete now session_id test_user = do
    _ ← unwrap ((store now).set codec session_id "user" test_user (pos 3600) (pos 3600) none)
    found ← unwrap ((store now).get codec session_id "user")
    _ ← assert (is_some found)
    _ ← unwrap ((store now).delete session_id)
    found' ← unwrap ((store now).get codec session_id "user")
    assert (is_none found')
