-- ===== src/Tests/Layered.antt =====
-- The theorems on src/store/layered/mod.rs at concrete sessions: the in-memory store before Postgres.
use ruts.Prelude.{ℕ, ℤ, Option, ◌≡◌, refl, none, some, true, false, [], ◌∷◌, pos}
use ruts.Outcome.{ok, panic}
use ruts.SessionId.{to_string}
use ruts.Store.LayeredTrait.{LayeredHotStore}
use ruts.Store.Join.{Race}
use ruts.Store.Layered.{get}
use ruts.Store.Memory
use ruts.Store.Memory.{memory_store}
use ruts.Store.Postgres.Queries.{current_rows}
use ruts.Store.Postgres.Tables.{Db}
use ruts.Store.Postgres.Traits.{postgres_store, postgres_meta}
use ruts.Store.Postgres.Meta.{layered_get-persistent}
use ruts.Session.{World}
use ruts.Store.Codec.{Bytes}
use ruts.HashMap
use ruts.HashMap.{HashMap}
use ruts.Tests.Crates.{unary, numbers, session, Tin}
use ruts.Tests.Memory.{dash, clock}

-- a hot store that ignores what it is given to cache
abbrev pub cold_warm : LayeredHotStore (memory_store unary dash clock)
cold_warm = record { set_multiple = λ id pairs s. (ok (pos 0), s) }

abbrev pub race : Race
race = record { first_fails_first = true; dropped_takes_effect = false }

-- a session with one field that does not expire
abbrev db : Db
unfolding to_string
db = record {
  sessions = (to_string unary (session 1), none) ∷ [];
  fields =
      (
        to_string unary (session 1),
        ("user", record { value = 7 ∷ []; expires_at = none; hot_cache_ttl = none }) ∷ [],
      )
      ∷ [];
}

abbrev world : World Tin ℕ (dash.Table × Db)
world = record {
  inner = record {
    state = 0;
    id = some (session 1);
    pending_id = none;
    cookie_max_age = pos 60;
    cookie_name = some "session";
    cookies = none;
    signing_key = none;
  };
  store = (dash.new, db);
}

layered_get-persistent_example :
    get
      (memory_store unary dash clock)
      (postgres_store unary "duplicate" 12)
      cold_warm
      (postgres_meta unary "duplicate" 12)
      race
      numbers
      (session 1)
      "cart"
      (dash.new, db)
    ≡ (panic, (dash.new, db))
unfolding Memory.get current_rows
layered_get-persistent_example =
    layered_get-persistent unary "duplicate" 12 (memory_store unary dash clock) cold_warm race
      numbers (session 1) "cart" "user" dash.new dash.new db
      (record { value = 7 ∷ []; expires_at = none; hot_cache_ttl = none }) refl refl refl

-- The user is not to be cached.
abbrev fields : HashMap Bytes
fields = ("user", 7 ∷ []) ∷ ("cart", 3 ∷ []) ∷ []

abbrev ttls : HashMap (Option ℤ)
ttls = ("cart", some (pos 30)) ∷ ("user", some (pos 0)) ∷ []
