-- ===== src/Tests/Examples.antt =====
-- The routes of examples/ at concrete sessions.
use ruts.Prelude.{ℕ, String, ◌≡◌, refl, ◌&&◌, none, some, [], ◌∷◌, arith, str_eq, if◌then◌else◌}
use ruts.Outcome.{ok}
use ruts.HashMap.{map_option}
use ruts.SessionId.{to_string}
use ruts.Store.Codec.{serialize_value}
use ruts.Store.Layered.{layered_store}
use ruts.Store.Postgres.Reach.{empty}
use ruts.Store.Postgres.Tables.{FieldRow, Db}
use ruts.Store.Postgres.Traits.{postgres_store, postgres_meta}
use ruts.Store.Postgres.View.{shown}
use ruts.Store.Redis.{redis_store, redis_hot}
use ruts.Examples.Layered as Both
use ruts.Examples.Uncached.{set_cold_only-uncached}
use ruts.Tests.Crates.{unary, numbers, session, Tin}
use ruts.Tests.Evicted.{world}
use ruts.Tests.Layered.{race}
use ruts.Tests.Server.{Keys, server}

-- Redis has a value from before.
abbrev held : Keys
held = server.hset (to_string unary (session 1)) "user_3" (7 ∷ []) (λ k. none)

set_cold_only-uncached_example :
    (h' : Keys) × (db' : Db) × ((Both.set_cold_only Tin ℕ
        (layered_store
          (redis_store unary server)
          (postgres_store unary "duplicate" 10)
          (redis_hot unary server)
          (postgres_meta unary "duplicate" 10)
          race)
        numbers
        (session 9)
        5
        (world (held, empty))).0
      ≡ ok tt)
    × ((Both.set_cold_only Tin ℕ
          (layered_store
            (redis_store unary server)
            (postgres_store unary "duplicate" 10)
            (redis_hot unary server)
            (postgres_meta unary "duplicate" 10)
            race)
          numbers
          (session 9)
          5
          (world (held, empty))).1.store
        ≡ (h', db'))
    × ((j g : String)
        → server.hget j g h' ≡ (
            if str_eq (to_string unary (session 1)) j && str_eq "user_3" g
            then none
            else server.hget j g held))
    × (map_option (λ (r : FieldRow). r.value) (shown unary 40 db' (session 1) "user_3")
        ≡ some (5 ∷ []))
unfolding serialize_value
set_cold_only-uncached_example =
    set_cold_only-uncached unary server numbers "duplicate" 10 40 (omega arith) race Tin ℕ
      (world (held, empty)) held empty (session 1) (session 9) 5 (5 ∷ []) refl refl refl refl refl
