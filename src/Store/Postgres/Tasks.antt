-- ===== src/Store/Postgres/Tasks.antt =====
-- src/store/postgres/mod.rs: the task that `build` spawns. The clock of the ticks is `tokio`'s, and
-- that of the statements the database's: they are taken as one.
use ruts.Prelude.{ℕ, ◌+◌, ◌*◌, ◌≤◌, ◌<◌, String, ◌≡◌, Bool, false, not, Option, none, some, arith}
use ruts.HashMap
use ruts.HashMap.{HashMap, keep_if, map_option}
use ruts.Store.Postgres.Tables.{Db}
use ruts.Store.Postgres.Queries.{not_over, cleanup}
use ruts.Store.Postgres.Builder.{Task}

-- `tokio::time::interval`: the instants of its ticks, from that of the call. A period of zero
-- panics; no tick comes before it is due.
pub record Timer : Type 0 where
  pub interval : (period start : ℕ) → Option (ℕ → ℕ)
  pub interval-zero : (start : ℕ) → interval 0 start ≡ none
  pub interval-due :
      (period start : ℕ)
      → 0 < period
      → (at : ℕ → ℕ) × (interval period start ≡ some at) × ((n : ℕ) → start + n * period ≤ at n)

-- What a tick of the loop does to the two tables, as other clients have left them by then; a task
-- whose interval has panicked does nothing.
unfoldable pub tick : {Pool : Type 0} → Timer → Task Pool → ℕ → ℕ → Db → Db
unfolding cleanup
tick timer task start n db = elim (timer.interval task.interval start) [
  | none ↦ db
  | some at ↦ cleanup (at n) db
]

-- a session, or a row of one, that has been over since before an instant
abbrev pub stale_session : ℕ → String → Db → Bool
stale_session now key db = elim (HashMap.get db.sessions key) [
  | none ↦ false
  | some session ↦ not (not_over now session)
]

abbrev pub stale_row : ℕ → String → String → Db → Bool
stale_row now key field db = elim (HashMap.get db.fields key) [
  | none ↦ false
  | some rows ↦ elim (HashMap.get rows field) [
    | none ↦ false
    | some row ↦ not (not_over now row.expires_at)
  ]
]

-- With an interval of zero the task never removes anything.
pub tick-zero :
    {Pool : Type 0} (timer : Timer) (task : Task Pool) (start n : ℕ) (db : Db)
    → task.interval ≡ 0
    → tick timer task start n db ≡ db
unfolding tick
tick-zero timer task start n db h = ground (arith, timer.interval-zero start)
