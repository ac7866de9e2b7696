-- ===== src/Tests/Memory.antt =====
-- The theorems on src/store/memory/mod.rs at concrete sessions, values and instants.
use ruts.Prelude.{ℕ, ◌≡◌, refl, Option, none, some, [], ◌∷◌, pos, arith}
use ruts.HashMap
use ruts.DashMap.{DashMap, function_table}
use ruts.SessionId.{to_string}
use ruts.Store.Memory.Expiry.{StoredValue, Fields, Clock}
use ruts.Store.Memory.{expire}
use ruts.Store.Memory.View.{visible}
use ruts.Store.Memory.Moves.{expire-revives}
use ruts.Tests.Crates.{unary, session}

abbrev pub dash : DashMap Fields
dash = function_table Fields

-- an operation that takes two nanoseconds
abbrev pub clock : Clock
clock = record { swept = 10; stored = 11; read = 12 }

abbrev pub stored : ℕ → Option ℕ → StoredValue
stored n expires_at = record { bytes = n ∷ []; expires_at = expires_at }

-- one field that does not expire, and one that has expired when the operations run
abbrev cart_and_user : Fields
cart_and_user = ("user", stored 7 none) ∷ ("cart", stored 3 (some 5)) ∷ []

abbrev pub table : dash.Table
unfolding to_string
table = dash.insert (to_string unary (session 1)) cart_and_user dash.new

-- The cart had expired.
expire-revives_example :
    visible unary dash 20 (expire unary dash clock (session 1) (pos 60) table).1 (session 1) "cart"
    ≡ some (stored 3 (some 60_000_000_011))
unfolding to_string HashMap.get
expire-revives_example =
    expire-revives unary dash clock 20 (omega arith) table (session 1) (session 2) (pos 60) "cart"
      cart_and_user (stored 3 (some 5)) refl refl refl (omega arith)
