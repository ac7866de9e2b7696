-- ===== src/Tests/Refill.antt =====
-- The theorems on the primary keys of Postgres, and on filling Redis from it, at tables with one field.
use ruts.Prelude.{none, some, [], ◌∷◌, pos}
use ruts.HashMap
use ruts.Store.Layered
use ruts.Store.Postgres.{upsert}
use ruts.Store.Postgres.Reach.{empty}
use ruts.Store.Postgres.Tables.{FieldRow, Db}
use ruts.Tests.Crates.{unary, numbers, session}
use ruts.Tests.Server.{Keys}

abbrev held : Db
held =
    (upsert unary "duplicate" 12 numbers (session 1) "cart" 5 (pos 60) (pos 30) (some (pos 10)) none
      empty).1

abbrev row : FieldRow
row = record { value = 5 ∷ []; expires_at = some 30_000_012; hot_cache_ttl = some (pos 10) }

abbrev bare : Keys
bare = λ k. none
