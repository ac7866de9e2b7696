-- ===== src/Tests/Redis.antt =====
-- The theorems on src/store/redis at concrete sessions.
use ruts.Prelude.{◌≡◌, ℕ, refl, false, none, some, [], ◌∷◌, pos, persistent, arith}
use ruts.SessionId.{to_string}
use ruts.Store.Codec.{serialize_value}
use ruts.Store.Redis.{set, redis_store}
use ruts.Store.Redis.Fields.{remove-missing}
use ruts.Session.{World, remove}
use ruts.Session.State.{session_state_deleted}
use ruts.Tests.Sessions.{inner}
use ruts.HashMap
use ruts.Outcome.{ok}
use ruts.Store.Redis.Lifetimes.{set-extends}
use ruts.Tests.Crates.{unary, numbers, session, Tin}
use ruts.Tests.Server.{Keys, server, with_field, field_at}

-- sessions 1 and 3
abbrev pub keys : Keys
keys =
    server.hset (to_string unary (session 1)) "user" (7 ∷ [])
      (server.hset (to_string unary (session 3)) "user" (8 ∷ []) (λ k. none))

-- The session does not expire.
set-extends_example :
    server.ttl
      (to_string unary (session 1))
      (set unary server numbers (session 1) "cart" 5 (pos 60) (pos 30) none keys).1
    ≡ persistent
unfolding serialize_value to_string with_field
set-extends_example =
    set-extends server unary numbers (session 1) "cart" 5 (pos 60) (pos 30) none (5 ∷ []) keys refl
      (λ e. ground arith) refl refl

-- The session has no cart.
abbrev world : World Tin ℕ Keys
world = record { inner = inner (some (session 1)) none; store = keys }

remove-missing_example :
    remove Tin ℕ (redis_store unary server) "cart" world
    ≡ (ok false, record world { inner = record world.inner { state = session_state_deleted } })
unfolding to_string with_field HashMap.get field_at
remove-missing_example = remove-missing server unary world (session 1) "cart" refl refl
