-- ===== src/Tests/Shared.antt =====
-- Two tasks of one request, over the in-memory store.
use ruts.Prelude.{ℕ, String, ◌≡◌, refl, Bool, true, none, some, [], ◌∷◌, pos, arith}
use ruts.Outcome.{Result, ok}
use ruts.HashMap
use ruts.SessionId.{to_string}
use ruts.Store.Codec.{serialize_value}
use ruts.Store.Contract.{Timed, View}
use ruts.Store.Memory.Contract.{memory_timed, memory_view, memory-Meets}
use ruts.Session.State.{required_session_ttl}
use ruts.Session.{World, Error}
use ruts.Session.Shared
use ruts.Session.Shared.{begin, set-races}
use ruts.Tests.Crates.{unary, numbers, session, Tin}
use ruts.Tests.Memory.{dash}
use ruts.Tests.Sessions.{rotating}

abbrev store : Timed
store = memory_timed unary dash

abbrev view : View dash.Table
view = memory_view unary dash

abbrev first : Result Error Bool × World Tin ℕ dash.Table
first =
    Shared.first Tin ℕ unary store view (memory-Meets unary dash) numbers 10 20 40 rotating
      (session 8) (session 9) "cart" "seen" 5 6 (some (pos 30)) (some (pos 30)) none none

abbrev second : Result Error Bool × World Tin ℕ dash.Table
second =
    Shared.second Tin ℕ unary store view (memory-Meets unary dash) numbers 10 20 40 rotating
      (session 8) (session 9) "cart" "seen" 5 6 (some (pos 30)) (some (pos 30)) none none

set-races_example :
    (first.0 ≡ ok true)
    × (second.0 ≡ ok true)
    × (second.1.inner.id ≡ some (session 2))
    × (view.view 40 first.1.store (session 2) "cart" ≡ some (5 ∷ []))
    × (view.view 40 second.1.store (session 1) "seen" ≡ some (6 ∷ []))
    × ((g : String)
        → view.view 40 second.1.store (session 2) g ≡ view.view 40 first.1.store (session 2) g)
unfolding serialize_value required_session_ttl to_string begin HashMap.get
set-races_example =
    set-races Tin ℕ unary store view (memory-Meets unary dash) numbers 10 20 40 rotating (session 8)
      (session 9) "cart" "seen" 5 6 (some (pos 30)) (some (pos 30)) none none (session 1)
      (session 2) (5 ∷ []) (6 ∷ []) tt (omega arith) (omega arith) refl refl refl refl refl refl
      refl refl refl refl refl
