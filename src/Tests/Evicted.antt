-- ===== src/Tests/Evicted.antt =====
-- `regenerate` and `delete` of a session that only Postgres has, behind Redis.
use ruts.Prelude.{ℕ, String, ◌≡◌, refl, none, some, true, false, pos}
use ruts.Outcome.{ok, err}
use ruts.HashMap
use ruts.SessionId.{to_string}
use ruts.Store.Codec.{backend}
use ruts.Store.Join.{Race}
use ruts.Store.Layered.{layered_store}
use ruts.Store.Layered.Undeleted.{layered, delete-evicted}
use ruts.Store.Layered.Evicted.{renamed, regenerate-evicted}
use ruts.Store.Postgres.Tables.{Db}
use ruts.Store.Postgres.Traits.{postgres_store, postgres_meta}
use ruts.Store.Postgres.View.{shown}
use ruts.Store.Redis.{redis_store, redis_hot}
use ruts.Session.{World, store_error, delete, regenerate}
use ruts.Tests.Crates.{unary, session, Tin}
use ruts.Tests.Postgres.{db, db-IsLinked}
use ruts.Tests.Server.{Keys, server}

-- The dropped call had been sent.
abbrev late : Race
late = record { first_fails_first = true; dropped_takes_effect = true }

abbrev pub world : {S : Type 0} → S → World Tin ℕ S
world s = record {
  inner = record {
    state = 0;
    id = some (session 1);
    pending_id = none;
    cookie_max_age = pos 60;
    cookie_name = some "session";
    cookies = none;
    signing_key = none;
  };
  store = s;
}

abbrev moved : Db
unfolding HashMap.get to_string
moved =
    renamed unary "duplicate" 12 late Tin ℕ db (session 1) (session 2) (some 90_000_000) db-IsLinked
      refl refl

abbrev evicted : Keys
evicted k = none

regenerate-evicted_example :
    (e : String) × (regenerate Tin ℕ
        (layered_store
          (redis_store unary server)
          (postgres_store unary "duplicate" 12)
          (redis_hot unary server)
          (postgres_meta unary "duplicate" 12)
          late)
        (session 2)
        (world (evicted, db))
      ≡ (err (store_error (backend e)), world (evicted, moved)))
    × ((t : ℕ) (f : String)
        → true ≡ true
        → (shown unary t moved (session 1) f ≡ none)
          × (shown unary t moved (session 2) f ≡ shown unary t db (session 1) f))
unfolding to_string HashMap.get
regenerate-evicted_example =
    regenerate-evicted unary "duplicate" 12 late Tin ℕ db (session 1) (session 2) (some 90_000_000)
      db-IsLinked refl refl server evicted refl (world (evicted, db)) refl refl

abbrev at_hand : World Tin ℕ (layered unary "duplicate" 12 late server).State
at_hand = world {S = Keys × Db} (evicted, db)

abbrev undeleted : World Tin ℕ (layered unary "duplicate" 12 late server).State
undeleted = (delete Tin ℕ (layered unary "duplicate" 12 late server) at_hand).1

delete-evicted_example :
    (db' : Db) × ((delete Tin ℕ (layered unary "duplicate" 12 late server) at_hand).0 ≡ ok false)
    × (undeleted.inner ≡ at_hand.inner)
    × (undeleted.store.1 ≡ db')
    × (HashMap.get db'.sessions (to_string unary (session 1)) ≡ none)
    × ((t : ℕ) (f : String) → shown unary t db' (session 1) f ≡ none)
unfolding to_string HashMap.get
delete-evicted_example =
    delete-evicted unary "duplicate" 12 late server Tin ℕ at_hand (session 1) (some 90_000_000)
      evicted db refl refl refl refl
