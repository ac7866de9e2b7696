-- ===== src/Tests/Stale.antt =====
-- Two requests of one session over the in-memory store.
use ruts.Prelude.{ℕ, String, ◌≡◌, refl, true, none, some, [], ◌∷◌, pos, arith}
use ruts.Outcome.{ok}
use ruts.HashMap
use ruts.SessionId.{to_string}
use ruts.Store.Codec.{serialize_value}
use ruts.Store.Contract.{Timed, at, View}
use ruts.Store.Memory.Contract.{memory_timed, memory_view, memory-Meets}
use ruts.Store.Memory.Expiry.{is_live}
use ruts.Store.Memory.View.{visible}
use ruts.Session.State.{required_session_ttl}
use ruts.Session.{World, set, regenerate}
use ruts.Session.Stale.{set-stale}
use ruts.Tests.Crates.{unary, numbers, session, Tin}
use ruts.Tests.Memory.{dash}
use ruts.Tests.Sessions.{world}

abbrev store : Timed
store = memory_timed unary dash

abbrev view : View dash.Table
view = memory_view unary dash

abbrev first : World Tin ℕ dash.Table
first = world (some (session 1)) none

set-stale_example :
    (u : World Tin ℕ dash.Table) × ((regenerate Tin ℕ (at store 10) (session 2) first).0
      ≡ ok (some (session 2)))
    × (set Tin ℕ (at store 20) numbers (session 9) "cart" 5 (some (pos 30)) none (record {
      inner = first.inner;
      store = (regenerate Tin ℕ (at store 10) (session 2) first).1.store;
    })
        ≡ (ok true, u))
    × (u.inner.id ≡ some (session 1))
    × (view.view 40 u.store (session 1) "cart" ≡ some (5 ∷ []))
    × ((g : String) → view.view 40 u.store (session 2) g ≡ view.view 40 first.store (session 1) g)
unfolding serialize_value required_session_ttl to_string is_live visible HashMap.get
set-stale_example =
    set-stale Tin ℕ unary store view (memory-Meets unary dash) numbers 10 20 40 first first.inner
      (session 1) (session 2) "user" (7 ∷ []) (session 9) "cart" 5 (some (pos 30)) none (5 ∷ []) tt
      (omega arith) (omega arith) refl refl refl refl refl refl refl refl refl refl
