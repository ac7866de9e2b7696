-- ===== src/Tests/Cache.antt =====
-- The theorems on a layered store over Redis and Postgres, from one call to another.
use ruts.Prelude.{ℕ, ◌≡◌, refl, none, some, [], ◌∷◌, pos, ℤ, arith}
use ruts.Outcome.{ok}
use ruts.Store.Codec.{serialize_value, deserialize_value}
use ruts.Store.Contract.{Timed, at}
use ruts.Store.Redis.Contract.{redis_timed, redis_view, redis-Meets}
use ruts.Store.Layered
use ruts.Store.Layered.Coherence.{layered-get-set, layered-get-delete}
use ruts.HashMap.{map_option}
use ruts.Store.LayeredTrait.{LayeredHotStore}
use ruts.Store.Redis.{set_multiple}
use ruts.Store.Postgres.Tables.{FieldRow, Db}
use ruts.Store.Postgres.Traits.{postgres_store, postgres_meta}
use ruts.Store.Postgres.View.{shown}
use ruts.Tests.Layered.{race}
use ruts.Tests.Postgres.{db}
use ruts.Tests.Redis.{keys}
use ruts.Tests.Server.{Keys}
use ruts.Tests.Crates.{unary, numbers, session}
use ruts.Tests.Server.{server}

abbrev hot : Timed
hot = redis_timed unary server

abbrev warm : (t : ℕ) → LayeredHotStore (at hot t)
warm t = record { set_multiple = set_multiple unary server }

layered-get-set_example :
    (ttl : ℤ) × (h' : Keys) × (db' : Db) × (Layered.set
        (at hot 12)
        (postgres_store unary "duplicate" 12)
        (warm 12)
        (postgres_meta unary "duplicate" 12)
        race
        numbers
        (session 1)
        "cart"
        5
        (pos 60)
        (pos 30)
        (some (pos 10))
        (keys, db)
      ≡ (ok ttl, (h', db')))
    × ((Layered.get
          (at hot 20)
          (postgres_store unary "duplicate" 20)
          (warm 20)
          (postgres_meta unary "duplicate" 20)
          race
          numbers
          (session 1)
          "cart"
          (h', db')).0
        ≡ ok (some 5))
    × (map_option (λ (r : FieldRow). r.value) (shown unary 20 db' (session 1) "cart")
        ≡ some (5 ∷ []))
unfolding serialize_value deserialize_value
layered-get-set_example =
    layered-get-set unary "duplicate" hot (redis_view unary server) (redis-Meets unary server) warm
      race numbers 12 20 (omega arith) keys db tt (session 1) "cart" 5 (pos 60) (pos 30)
      (some (pos 10)) (5 ∷ []) refl refl refl refl refl

layered-get-delete_example :
    (Layered.get
      (at hot 20)
      (postgres_store unary "duplicate" 20)
      (warm 20)
      (postgres_meta unary "duplicate" 20)
      race
      numbers
      (session 1)
      "user"
      (Layered.delete
        (at hot 12)
        (postgres_store unary "duplicate" 12)
        (warm 12)
        (postgres_meta unary "duplicate" 12)
        race
        (session 1)
        (keys, db)).1).0
    ≡ ok none
layered-get-delete_example =
    layered-get-delete unary "duplicate" hot (redis_view unary server) (redis-Meets unary server)
      warm race numbers 12 20 (omega arith) keys db tt (session 1) "user"
