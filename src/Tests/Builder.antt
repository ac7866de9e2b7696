-- ===== src/Tests/Builder.antt =====
-- The theorems on the builder of src/store/postgres/mod.rs and on its task, at a database that holds
-- the names of what has been created, and at a timer whose ticks are all in time.
use ruts.Prelude.{
  ℕ, ◌+◌, ◌*◌, String, ◌<>◌, ◌≡◌, refl, Bool, true, false, ◌||◌, ◌==◌, none, some, List, [], ◌∷◌,
  arith, str_eq, if◌then◌else◌, ◌≢◌,
}
use ruts.Outcome.{Result, ok}
use ruts.Store.Postgres.Builder.{
  Statement, create_schema, create_expiry_table, create_fields_table, create_index, Sqlx,
  PostgresStoreBuilder, PostgresStore, Task, new, schema_name, build, table_names,
}
use ruts.Store.Postgres.Built.{table_names-clash}
use ruts.Store.Postgres.Tasks.{Timer}

abbrev name_of : Statement → String
name_of (create_schema name) = "schema " <> name
name_of (create_expiry_table name) = "relation " <> name
name_of (create_fields_table name parent) = "relation " <> name
name_of (create_index name on column) = "index " <> name

mem : String → List String → Bool
mem n [] = false
mem n (m ∷ ms) = str_eq m n || mem n ms

-- `if not exists`
add : String → List String → List String
add n ms = if mem n ms then ms else n ∷ ms

abbrev add_all : List Statement → List String → List String
add_all [] ms = ms
add_all (st ∷ sts) ms = add_all sts (add (name_of st) ms)

abbrev sqlx : Sqlx
sqlx = record {
  Pool = ℕ;
  Database = List String;
  Error = String;
  execute = λ pool batch s. (ok tt, add_all batch s);
}

table_names-clash_example :
    ((table_names (some "app") "t").0 ≢ (table_names (some "app") "t").1)
    × ((table_names (some "app") "t").1 ≡ (table_names (some "app") ("t" <> "_kv")).0)
    × (table_names (some "app") "t" ≡ table_names none ("app" <> "\".\"" <> "t"))
table_names-clash_example = table_names-clash (some "app") "app" "t"

abbrev timer : Timer
timer = record {
  interval = λ period start. if period == 0 then none else some (λ n. start + n * period);
  interval-zero = λ start. refl;
  interval-due = λ period start h. (λ n. start + n * period, ground arith, λ n. omega arith);
}

-- a store in a schema of its own, with the other defaults
abbrev builder : PostgresStoreBuilder ℕ
builder = schema_name "app" (new 0 true)

abbrev built : (Result String (PostgresStore ℕ × Task ℕ)) × List String
built = build sqlx builder []

abbrev store : PostgresStore ℕ
store = record {
  pool = 0;
  expiry_table_name = "\"app\".\"t_sessions\"";
  fields_table_name = "\"app\".\"t_sessions_kv\"";
}

abbrev spawned : Task ℕ
spawned = record {
  pool = 0;
  e_table = "\"app\".\"t_sessions\"";
  f_table = "\"app\".\"t_sessions_kv\"";
  interval = 300_000_000;
}

-- the names that a run of `build` creates
build_run : built ≡ (
  ok (store, spawned),
  "index idx_fields_expires_at" ∷ "index idx_fields_session_id"
      ∷ "relation \"app\".\"t_sessions_kv\"" ∷ "index idx_sessions_expires_at"
      ∷ "relation \"app\".\"t_sessions\"" ∷ "schema app" ∷ [],
)
unfolding build add mem schema_name new
build_run = refl

-- a task that runs every second
abbrev task : ℕ → Task ℕ
task interval = record { pool = 0; e_table = "t"; f_table = "t_kv"; interval = interval }
