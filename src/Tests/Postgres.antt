-- ===== src/Tests/Postgres.antt =====
-- The theorems on src/store/postgres/mod.rs at concrete tables. An instant is a number of
-- microseconds.
use ruts.Prelude.{false, ℕ, String, ◌≡◌, refl, Option, none, some, [], ◌∷◌, pos, gone, arith}
use ruts.Outcome.{ok}
use ruts.HashMap
use ruts.SessionId.{to_string}
use ruts.Store.Postgres.{remove, upsert}
use ruts.Store.Postgres.Queries.{cleanup}
use ruts.Store.Postgres.Tables.{FieldRow, Rows, Db}
use ruts.Store.Postgres.View.{shown}
use ruts.Store.Postgres.Removal.{remove-single}
use ruts.Store.Postgres.Renames.{IsLinked, orphaned}
use ruts.Store.Postgres.Reach.{empty}
use ruts.Store.Postgres.Expiry.{shown-cleanup}
use ruts.Tests.Crates.{unary, numbers, session}

abbrev row : ℕ → Option ℕ → FieldRow
row n expires_at = record { value = n ∷ []; expires_at = expires_at; hot_cache_ttl = none }

-- session 1 has two fields and session 3 one
abbrev pub db : Db
db = record {
  sessions =
      (to_string unary (session 1), some 90_000_000) ∷ (to_string unary (session 3), none) ∷ [];
  fields =
      (
        to_string unary (session 1),
        ("user", row 7 (some 50_000_000)) ∷ ("cart", row 3 (some 90_000_000)) ∷ [],
      )
      ∷ (to_string unary (session 3), ("user", row 8 none) ∷ [])
      ∷ [];
}

-- The session has no cart.
remove-single_example :
    ((remove unary "duplicate" 12 (session 3) "cart" db).0 ≡ ok gone)
    × (shown unary 20 (remove unary "duplicate" 12 (session 3) "cart" db).1 (session 3) "user"
        ≡ none)
unfolding to_string HashMap.get
remove-single_example =
    remove-single unary "duplicate" 12 20 db (session 3) none "user" "cart" "user" (row 8 none) refl
      refl

-- two tables with the same two keys
same_keys :
    (a b key : String) (x y : Option ℕ) (r q : Rows)
    → orphaned (HashMap.get ((a, x) ∷ (b, y) ∷ []) key) (HashMap.get ((a, r) ∷ (b, q) ∷ []) key)
      ≡ false
unfolding HashMap.get
same_keys a b key x y r q = ground arith

pub db-IsLinked : IsLinked db
db-IsLinked key = same_keys _ _ key _ _ _ _

abbrev after_set : Db
after_set =
    (upsert unary "duplicate" 12 numbers (session 1) "cart" 5 (pos 60) (pos 30) none none empty).1

shown-cleanup_example :
    shown unary 60_000_000 (cleanup 55_000_000 db) (session 1) "cart"
    ≡ shown unary 60_000_000 db (session 1) "cart"
shown-cleanup_example =
    shown-cleanup unary 55_000_000 60_000_000 db (session 1) "cart" (omega arith)
