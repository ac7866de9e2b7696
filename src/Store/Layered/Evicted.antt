-- ===== src/Store/Layered/Evicted.antt =====
-- src/store/layered/mod.rs: what `regenerate` does to a session that the cache no longer has, since it
-- has expired there or was evicted, while Postgres still has it.
use ruts.Prelude.{ℕ, String, ◌≡◌, true, false, Option, none, some, arith, eq_iff}
use ruts.Outcome.{ok, err}
use ruts.HashMap
use ruts.HashMap.{get-insert, get-remove}
use ruts.SessionId.{SessionId, Base64, to_string}
use ruts.Store.Codec.{backend}
use ruts.Store.Join.{Race, dropped}
use ruts.Store.Layered
use ruts.Store.Layered.{layered_store}
use ruts.Store.Postgres
use ruts.Store.Postgres.Tables.{Db}
use ruts.Store.Postgres.Traits.{postgres_store, postgres_meta}
use ruts.Store.Postgres.Renames.{IsLinked, shown-rename_session_id}
use ruts.Store.Postgres.View.{shown}
use ruts.Store.Redis as Methods
use ruts.Store.Redis.{redis_store, redis_hot}
use ruts.Store.Redis.Server.{Redis}
use ruts.Session
use ruts.Session.{World, store_error}

module _ (b64 : Base64) (duplicate_key : String) (now : ℕ) (race : Race) (Cookies Key : Type 0)
    (db : Db) (old new : SessionId) (session : Option ℕ) (linked : IsLinked db)
    (here : HashMap.get db.sessions (to_string b64 old) ≡ some session)
    (free : HashMap.get db.sessions (to_string b64 new) ≡ none) where
  abbrev pub renamed : Db
  renamed = (Postgres.rename_session_id b64 duplicate_key now old new db).1

  -- Postgres moves the session
  moved :
      (t : ℕ) (f : String)
      → (Postgres.rename_session_id b64 duplicate_key now old new db ≡ (ok true, renamed))
        × (shown b64 t renamed old f ≡ none)
        × (shown b64 t renamed new f ≡ shown b64 t db old f)
  moved t f =
      let at_old =
        shown-rename_session_id b64 duplicate_key now db old new t old f session linked here free in
      let at_new =
        shown-rename_session_id b64 duplicate_key now db old new t new f session linked here free in
      (
        ground (arith, at_old.0),
        ground (
          arith,
          at_old.1,
          eq_iff (to_string b64 old) (to_string b64 old),
          eq_iff (to_string b64 new) (to_string b64 old),
        ),
        ground (arith, at_new.1, eq_iff (to_string b64 new) (to_string b64 new)),
      )

  module _ (redis : Redis) (h : redis.State) (evicted : redis.exists (to_string b64 old) h ≡ false)
      (w : World Cookies Key (redis.State × Db)) (named : w.inner.id ≡ some old)
      (at_hand : w.store ≡ (h, db)) where
    -- Over Redis and Postgres, whose tables keep the foreign key, where Redis does not have the
    -- session and Postgres has it, and no session there has the new id: `regenerate` fails, and the
    -- session keeps its old id. Postgres has moved the session where the call that `try_join!`
    -- drops takes effect; then the old id shows nothing there, and the new one, which no cookie
    -- carries, what the old one showed.
    pub regenerate-evicted :
        (e : String) × (Session.regenerate Cookies Key
            (layered_store
              (redis_store b64 redis)
              (postgres_store b64 duplicate_key now)
              (redis_hot b64 redis)
              (postgres_meta b64 duplicate_key now)
              race)
            new
            w
          ≡ (err (store_error (backend e)), record w { store = (h, dropped race db renamed) }))
        × ((t : ℕ) (f : String)
            → race.dropped_takes_effect ≡ true
            → (shown b64 t (dropped race db renamed) old f ≡ none)
              × (shown b64 t (dropped race db renamed) new f ≡ shown b64 t db old f))
    unfolding Session.regenerate Layered.rename_session_id Methods.rename_session_id
    regenerate-evicted =
        let (e, failed) =
          redis.renamenx-missing (to_string b64 old) (to_string b64 new) h evicted in
        (
          e,
          ground (arith, (moved now "").0),
          λ t f late. (ground (arith, (moved t f).1), ground (arith, (moved t f).2)),
        )
