-- ===== src/Tests/Suite.antt =====
-- The repository's tests pass on the models of the stores.
use ruts.Prelude.{ℕ, ◌-◌, refl, ◌==◌, Option, none, some, pos, negsuc, leb, if◌then◌else◌}
use ruts.HashMap
use ruts.Store.Codec.{serialize_value, deserialize_value}
use ruts.Session
use ruts.Session.State.{required_session_ttl}
use ruts.Store.Contract.{Timed, at}
use ruts.Store.Memory
use ruts.Store.Memory.{new}
use ruts.Store.Memory.Contract.{memory_timed}
use ruts.Store.Postgres.Queries
use ruts.Store.Postgres.Traits
use ruts.Store.Postgres.Contract.{postgres_timed}
use ruts.Store.Postgres.Reach.{empty}
use ruts.Store.Layered
use ruts.Store.Trait.{SessionStore}
use ruts.Store.Redis
use ruts.Store.Postgres
use ruts.Store.SessionMap
use ruts.Store.Redis.{redis_store, redis_hot}
use ruts.Suite.{Passes}
use ruts.Suite.Layered as Both
use ruts.Suite.Redis as Keyed
use ruts.Suite.Session as Handler
use ruts.Suite.Memory as Ram
use ruts.Suite.Postgres as Sql
use ruts.Tests.Crates.{unary, numbers, session, Tin}
use ruts.Tests.Layered.{race}
use ruts.Tests.Memory.{dash}
use ruts.Tests.Server.{Entry, Keys, server, field_at, with_field, without_field}

abbrev memory : Timed
memory = memory_timed unary dash

memory-Passes :
    Passes (Ram.test_basic_operations numbers ◌==◌ memory 5 (session 1) 3 4) (new unary dash)
    × Passes
        (Ram.test_expiration numbers ◌==◌ memory 5 2_100_000_005 (session 1) 3)
        (new unary dash)
    × Passes
        (Ram.test_rename_preserves_data numbers ◌==◌ memory 5 (session 1) (session 2) 3)
        (new unary dash)
unfolding Ram.test_basic_operations Memory.set serialize_value Memory.get HashMap.get
    deserialize_value HashMap.retain Ram.test_expiration Ram.test_rename_preserves_data
    Memory.set_and_rename new
memory-Passes = (refl, refl, refl)

session-Passes :
    Passes
      (Handler.test_session_operations Tin ℕ (at memory 5) numbers ◌==◌ (session 1) 3 4)
      (Handler.start (new unary dash))
    × Passes
        (Handler.test_prepare_regenerate Tin ℕ
          (at memory 5)
          numbers
          ◌==◌
          unary
          (session 1)
          (session 2)
          3
          4)
        (Handler.start (new unary dash))
unfolding Handler.test_session_operations Session.set Handler.start Memory.set required_session_ttl
    serialize_value Session.get Memory.get HashMap.get deserialize_value HashMap.retain
    Session.delete Handler.test_prepare_regenerate Memory.set_and_rename new
session-Passes = (refl, refl)

abbrev postgres : Timed
postgres = postgres_timed unary "duplicate"

fields-Passes :
    Passes (Sql.test_set_and_get numbers ◌==◌ postgres 5 (session 1) 3 4) empty
    × Passes (Sql.test_update_overwrites numbers ◌==◌ postgres 5 (session 1) 3 4) empty
    × Passes (Sql.test_get_all_multiple_fields numbers ◌==◌ postgres 5 (session 1) 3 4) empty
    × Passes (Sql.test_remove_and_delete numbers ◌==◌ postgres 5 (session 1) 3) empty
unfolding Sql.test_set_and_get Traits.set serialize_value HashMap.get Queries.get deserialize_value
    Sql.test_update_overwrites Sql.test_get_all_multiple_fields Queries.get_all
    Sql.test_remove_and_delete
fields-Passes = (refl, refl, refl, refl)

lifetimes-Passes :
    Passes (Sql.test_ttl_zero_removes numbers ◌==◌ postgres 5 (session 1) 3) empty
    × Passes (Sql.test_ttl_negative_persists numbers ◌==◌ postgres 5 (session 1) 3) empty
    × Passes (Sql.test_expire_method numbers ◌==◌ postgres 5 3_000_005 (session 1) 3) empty
    × Passes
        (Sql.test_expire_caps_long_lived_fields numbers ◌==◌ postgres 5 2_000_005 (session 1) 3)
        empty
    × Passes
        (Sql.test_remove_downgrades_session_expiry numbers ◌==◌ postgres 5 (session 1) 3 4)
        empty
unfolding Sql.test_ttl_zero_removes Traits.set HashMap.get Queries.get
    Sql.test_ttl_negative_persists serialize_value deserialize_value Sql.test_expire_method
    Sql.test_expire_caps_long_lived_fields Queries.expire Sql.test_remove_downgrades_session_expiry
lifetimes-Passes = (refl, refl, refl, refl, refl)

renames-Passes :
    Passes (Sql.test_set_with_rename numbers ◌==◌ postgres 5 (session 1) (session 2) 3) empty
    × Passes
        (Sql.test_rename_collision_fails numbers ◌==◌ postgres 5 (session 1) (session 2) 3 4 5)
        empty
    × Passes
        (Sql.test_rename_logic_collision numbers ◌==◌ postgres 5 (session 1) (session 2) 3 4)
        empty
unfolding Sql.test_set_with_rename Traits.set_and_rename serialize_value HashMap.get Queries.get
    deserialize_value Sql.test_rename_collision_fails Traits.set Sql.test_rename_logic_collision
renames-Passes = (refl, refl, refl)

-- The lifetimes of the keys end, and so do the keys.
abbrev shorter : ℕ → Entry → Option Entry
shorter seconds (pos n, fields) = if leb n seconds then none else some (pos (n - seconds), fields)
shorter seconds (negsuc n, fields) = some (negsuc n, fields)

abbrev elapse : ℕ → Keys → Keys
elapse seconds s j = elim (s j) [ none ↦ none | some e ↦ shorter seconds e ]

abbrev flushed : Keys
flushed j = none

abbrev redis : SessionStore
redis = redis_store unary server

redis-Passes :
    Passes (Keyed.test_set_and_get numbers ◌==◌ redis (elapse 0) (session 1) 3) flushed
    × Passes (Keyed.test_set_with_field_ttl numbers ◌==◌ redis (elapse 1) (session 1) 3) flushed
    × Passes
        (Keyed.test_set_updates_session_persistence numbers ◌==◌ redis (elapse 0) (session 1) 3 4)
        flushed
    × Passes
        (Keyed.test_rename_success numbers ◌==◌ redis (elapse 0) (session 1) (session 2) 3 4)
        flushed
    × Passes
        (Keyed.test_rename_conflict_fails numbers ◌==◌ redis
          (elapse 0)
          (session 1)
          (session 2)
          3
          4
          5)
        flushed
    × Passes (Keyed.test_remove_and_delete numbers ◌==◌ redis (elapse 0) (session 1) 3 4) flushed
    × Passes
        (Keyed.test_set_multiple numbers ◌==◌ redis
          (elapse 0)
          (redis_hot unary server)
          (session 1)
          3
          4)
        flushed
unfolding Keyed.test_set_and_get Keyed.test_set_with_field_ttl
    Keyed.test_set_updates_session_persistence Keyed.test_rename_success
    Keyed.test_rename_conflict_fails Keyed.test_remove_and_delete Keyed.test_set_multiple Redis.set
    Redis.get Redis.set_and_rename Redis.remove Redis.set_multiple with_field field_at without_field
    serialize_value deserialize_value HashMap.get
redis-Passes = (refl, refl, refl, refl, refl, refl, refl)

layered-Passes :
    Passes
      (Both.test_layered_cache unary server "duplicate" race
        (elapse 2)
        numbers
        ◌==◌
        5
        2_000_005
        (session 1)
        3)
      (flushed, empty)
    × Passes
        (Both.test_layered_delete unary server "duplicate" race
          (elapse 2)
          numbers
          ◌==◌
          5
          (session 1)
          3)
        (flushed, empty)
unfolding Both.test_layered_cache Layered.set Redis.set serialize_value Traits.set_with_meta
    Layered.get Redis.get field_at with_field deserialize_value Queries.get_all_with_meta
    HashMap.map_values Redis.set_multiple SessionMap.get Both.test_layered_delete Layered.delete
    Redis.delete Postgres.delete HashMap.get
layered-Passes = (refl, refl)
