-- ===== src/Tests/Expiring.antt =====
-- `expire` over the Postgres and the in-memory store, and what is read when the lifetime has ended.
use ruts.Prelude.{ℕ, ◌≡◌, refl, none, some, pos, arith}
use ruts.Outcome.{ok}
use ruts.Store.Contract.{Timed, at}
use ruts.Store.Memory.Contract.{memory_timed, memory_view, memory-Meets}
use ruts.Store.Memory.Expires.{memory-Expires}
use ruts.Store.Postgres.Contract.{postgres_timed, postgres_view, postgres-Meets}
use ruts.Store.Postgres.Expires.{postgres-Expires}
use ruts.Store.Postgres.Tables.{Db}
use ruts.Session.{World, get, expire}
use ruts.Session.Expiring.{any-expire}
use ruts.Tests.Crates.{unary, numbers, session, Tin}
use ruts.Tests.Memory.{dash}
use ruts.Tests.Postgres.{db, db-IsLinked}
use ruts.Tests.Sessions.{world, inner}

abbrev rows : Timed
rows = postgres_timed unary "duplicate"

abbrev begun : World Tin ℕ Db
begun = record { inner = inner (some (session 1)) none; store = db }

any-expire_example :
    (get Tin ℕ
      (at rows 40_000_000)
      numbers
      "user"
      (record begun { store = (expire Tin ℕ (at rows 12) (pos 30) begun).1.store })).0
    ≡ ok none
any-expire_example =
    (any-expire Tin ℕ unary rows (postgres_view unary "duplicate")
        (postgres-Meets unary "duplicate") (postgres-Expires unary "duplicate") 12 40_000_000
        (pos 30) begun (session 1) db-IsLinked (omega arith) refl refl refl).2
      ℕ numbers "user" (record begun { store = (expire Tin ℕ (at rows 12) (pos 30) begun).1.store })
      refl refl

abbrev entries : Timed
entries = memory_timed unary dash

abbrev first : World Tin ℕ dash.Table
first = world (some (session 1)) none

abbrev after_expire : World Tin ℕ dash.Table
after_expire = record first { store = (expire Tin ℕ (at entries 12) (pos 30) first).1.store }

memory_expired : (get Tin ℕ (at entries 40_000_000_000) numbers "user" after_expire).0 ≡ ok none
memory_expired =
    (any-expire Tin ℕ unary entries (memory_view unary dash) (memory-Meets unary dash)
        (memory-Expires unary dash) 12 40_000_000_000 (pos 30) first (session 1) tt (omega arith)
        refl refl refl).2
      ℕ numbers "user" after_expire refl refl
