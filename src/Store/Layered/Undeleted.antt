-- ===== src/Store/Layered/Undeleted.antt =====
-- src/store/layered/mod.rs: what `delete` does to a session that the cache no longer has, since it has
-- expired there or was evicted, while Postgres still has it.
use ruts.Prelude.{ℕ, String, ◌≡◌, false, Option, none, some, arith, eq_iff}
use ruts.Outcome.{ok}
use ruts.HashMap
use ruts.HashMap.{get-remove}
use ruts.SessionId.{SessionId, Base64, to_string}
use ruts.Store.Join.{Race}
use ruts.Store.Layered
use ruts.Store.Layered.{layered_store}
use ruts.Store.Postgres
use ruts.Store.Postgres.Erasure.{shown-delete}
use ruts.Store.Postgres.Tables.{Db}
use ruts.Store.Postgres.Traits.{postgres_store, postgres_meta}
use ruts.Store.Postgres.View.{shown}
use ruts.Store.Redis as Methods
use ruts.Store.Redis.{redis_store, redis_hot}
use ruts.Store.Redis.Server.{Redis}
use ruts.Store.Trait.{SessionStore}
use ruts.Session
use ruts.Session.{World}

module _ (b64 : Base64) (duplicate_key : String) (now : ℕ) (race : Race) (redis : Redis) where
  -- Redis before Postgres
  abbrev pub layered : SessionStore
  layered =
      layered_store (redis_store b64 redis) (postgres_store b64 duplicate_key now)
        (redis_hot b64 redis) (postgres_meta b64 duplicate_key now) race

  -- Over Redis, which does not have the session, and Postgres, which has it: `delete` by a handler of
  -- the session says that nothing was deleted and leaves the `Inner` of the request as it was, its
  -- mark for the cookie too; but Postgres has dropped the session, and no field of it can be read
  -- there at any instant.
  pub delete-evicted :
      (Cookies Key : Type 0) (w : World Cookies Key layered.State) (id : SessionId)
      (session : Option ℕ) (h : redis.State) (db : Db)
      → w.inner.id ≡ some id
      → w.store ≡ (h, db)
      → redis.exists (to_string b64 id) h ≡ false
      → HashMap.get db.sessions (to_string b64 id) ≡ some session
      → (db' : Db) × ((Session.delete Cookies Key layered w).0 ≡ ok false)
        × ((Session.delete Cookies Key layered w).1.inner ≡ w.inner)
        × ((Session.delete Cookies Key layered w).1.store.1 ≡ db')
        × (HashMap.get db'.sessions (to_string b64 id) ≡ none)
        × ((t : ℕ) (f : String) → shown b64 t db' id f ≡ none)
  unfolding Session.delete Layered.delete Methods.delete Postgres.delete
  delete-evicted Cookies Key w id session h db named at_hand evicted there =
      let key = to_string b64 id in
      let absent = redis.del-missing key h evicted in
      (
        (Postgres.delete b64 duplicate_key now id db).1,
        ground arith,
        ground arith,
        ground arith,
        ground (arith, get-remove db.sessions key key, eq_iff key key),
        λ t f. ground (arith, shown-delete b64 duplicate_key now t db id id f, eq_iff key key),
      )
