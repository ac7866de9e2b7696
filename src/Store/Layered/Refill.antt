-- ===== src/Store/Layered/Refill.antt =====
-- src/store/layered/mod.rs over Redis and Postgres: a `get` that misses in Redis is answered by
-- Postgres, and fills Redis.
use ruts.Prelude.{ℕ, String, Option, none, some, ℤ}
use ruts.HashMap
use ruts.HashMap.{HashMap, keep_if, map_option, bind_option}
use ruts.SessionId.{SessionId, Base64}
use ruts.Store.Codec.{Bytes, Codec}
use ruts.Store.SessionMap
use ruts.Store.SessionMap.{SessionMap}
use ruts.Store.Join.{Race}
use ruts.Store.Layered
use ruts.Store.Redis as Methods
use ruts.Store.Redis.Server.{Redis}
use ruts.Store.Postgres.Tables.{FieldRow, Rows, Db}
use ruts.Store.Postgres.Queries.{current_rows, meta_of}
use ruts.Store.Postgres.Keys.{HasKeys}

-- a value that is chosen for the cache, or else what was there
abbrev filled : Option (Bytes × Option ℤ) → Option Bytes → Option Bytes
filled none before = before
filled (some (v, l)) before = some v

module _ (redis : Redis) where
  module _ (b64 : Base64) (duplicate_key : String) (race : Race) (now : ℕ) (id : SessionId)
      (db : Db) (keys : HasKeys db) where
    abbrev rows : Rows
    rows = current_rows b64 now id db

    abbrev values : HashMap Bytes
    values = HashMap.map_values (λ (r : FieldRow). r.value) rows

    abbrev lifetimes : HashMap (Option ℤ)
    lifetimes = HashMap.filter_map_values (meta_of now) rows
