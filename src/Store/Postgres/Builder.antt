-- ===== src/Store/Postgres/Builder.antt =====
-- src/store/postgres/mod.rs: `PostgresStoreBuilder`. The strings of SQL that `build` sends are told
-- apart by what they create, under the names that `format!` puts into them. `sqlx` and the database
-- behind a pool are a record. A `Duration` is a number of microseconds, as a timestamp is.
use ruts.Prelude.{ℕ, ◌*◌, String, ◌<>◌, Bool, Option, none, some, List, [], ◌∷◌, if◌then◌else◌}
use ruts.Outcome.{Action, pure, ◌>>=◌}
use ruts.Session.State.{unwrap_or}
use ruts.Store.Postgres.Tables.{micros}

pub data Statement : Type 0 where
  -- create schema if not exists "name"
  create_schema : (name : String) → Statement
  -- create table if not exists name (session_id text primary key, expires_at timestamptz)
  create_expiry_table : (name : String) → Statement
  -- create table if not exists name (fk_session_id text not null references parent (session_id) …)
  create_fields_table : (name parent : String) → Statement
  -- create index if not exists name on table(column)
  create_index : (name table column : String) → Statement

-- What `build` uses of `sqlx`, and of the database: to send statements.
pub record Sqlx : Type 1 where
  pub Pool : Type 0
  pub Database : Type 0
  pub Error : Type 0
  pub execute : Pool → List Statement → Action Database Error (Unit {0})

pub record PostgresStoreBuilder (Pool : Type 0) : Type 0 where
  pub pool : Pool
  pub table_name : String
  pub create_table : Bool
  pub schema_name : Option String
  pub cleanup_interval : Option ℕ

pub record PostgresStore (Pool : Type 0) : Type 0 where
  pub pool : Pool
  pub expiry_table_name : String
  pub fields_table_name : String

-- what the task that `build` spawns holds
pub record Task (Pool : Type 0) : Type 0 where
  pub pool : Pool
  pub e_table : String
  pub f_table : String
  pub interval : ℕ

module _ {Pool : Type 0} where
  unfoldable pub new : Pool → Bool → PostgresStoreBuilder Pool
  new pool create_table = record {
    pool = pool;
    table_name = "t_sessions";
    create_table = create_table;
    schema_name = none;
    cleanup_interval = none;
  }

  unfoldable pub table_name : String → PostgresStoreBuilder Pool → PostgresStoreBuilder Pool
  table_name name b = record b { table_name = name }

  unfoldable pub schema_name : String → PostgresStoreBuilder Pool → PostgresStoreBuilder Pool
  schema_name name b = record b { schema_name = some name }

  unfoldable pub cleanup_interval : ℕ → PostgresStoreBuilder Pool → PostgresStoreBuilder Pool
  cleanup_interval interval b = record b { cleanup_interval = some interval }

-- a table's name, quoted, behind that of the schema if there is one
unfoldable pub quoted : Option String → String → String
quoted none table = "\"" <> table <> "\""
quoted (some schema) table = "\"" <> schema <> "\".\"" <> table <> "\""

-- the two names that `build` starts with
unfoldable pub table_names : Option String → String → String × String
unfolding quoted
table_names schema table = (quoted schema table, quoted schema (table <> "_kv"))

-- the statements of the two calls of `raw_sql`
abbrev pub expiry_statements : String → List Statement
expiry_statements e_table =
    create_expiry_table e_table ∷ create_index "idx_sessions_expires_at" e_table "expires_at" ∷ []

abbrev pub fields_statements : String → String → List Statement
fields_statements e_table f_table =
    create_fields_table f_table e_table
    ∷ create_index "idx_fields_session_id" f_table "fk_session_id"
    ∷ create_index "idx_fields_expires_at" f_table "expires_at"
    ∷ []

-- `unwrap_or(Duration::from_secs(60 * 5))`
abbrev pub interval_or_default : Option ℕ → ℕ
interval_or_default interval = unwrap_or interval (60 * 5 * micros)

module _ (sqlx : Sqlx) where
  abbrev pub Build : Type 0 → Type 0
  Build A = Action sqlx.Database sqlx.Error A

  -- the schema, if one is configured
  unfoldable pub create_schema_if_named : sqlx.Pool → Option String → Build (Unit {0})
  create_schema_if_named pool none = pure tt
  create_schema_if_named pool (some schema) = sqlx.execute pool (create_schema schema ∷ [])

  -- `if self.create_table`
  unfoldable pub create_tables : PostgresStoreBuilder sqlx.Pool → String → String → Build (Unit {0})
  unfolding create_schema_if_named
  create_tables b e_table f_table =
      if b.create_table
      then (create_schema_if_named b.pool b.schema_name
          >>= (λ _. sqlx.execute b.pool (expiry_statements e_table))
          >>= (λ _. sqlx.execute b.pool (fields_statements e_table f_table)))
      else pure tt

  -- the store, and the task that is spawned
  unfoldable pub build :
      PostgresStoreBuilder sqlx.Pool → Build (PostgresStore sqlx.Pool × Task sqlx.Pool)
  unfolding table_names create_tables
  build b =
      let (e_table, f_table) = table_names b.schema_name b.table_name in
      create_tables b e_table f_table >>= λ _. pure (
        record { pool = b.pool; expiry_table_name = e_table; fields_table_name = f_table },
        record {
          pool = b.pool;
          e_table = e_table;
          f_table = f_table;
          interval = interval_or_default b.cleanup_interval;
        },
      )
