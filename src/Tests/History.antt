-- ===== src/Tests/History.antt =====
-- A value through a history of calls, over the in-memory store.
use ruts.Prelude.{ℕ, ◌≡◌, inr, refl, none, some, [], ◌∷◌, pos, arith}
use ruts.Outcome.{ok}
use ruts.SessionId.{to_string}
use ruts.Store.Codec.{serialize_value, deserialize_value}
use ruts.Store.Contract.{Timed, at, View}
use ruts.Store.Memory.Contract.{memory_timed, memory_view, memory-Meets}
use ruts.Session.State.{required_session_ttl}
use ruts.Session.{World, get, set}
use ruts.Session.History.{Reach, here, next, setting, deleting, any-get-history}
use ruts.Tests.Crates.{unary, numbers, session, Tin}
use ruts.Tests.Memory.{dash}
use ruts.Tests.Sessions.{world}

abbrev store : Timed
store = memory_timed unary dash

abbrev view : View dash.Table
view = memory_view unary dash

abbrev begun : World Tin ℕ dash.Table
begun = world (some (session 1)) none

abbrev written : dash.Table
written = (set Tin ℕ (at store 10) numbers (session 9) "cart" 5 (some (pos 30)) none begun).1.store

abbrev other_field : dash.Table
other_field = (store.set 12 numbers (session 1) "user" 8 (pos 60) (pos 60) none written).1

abbrev other_session : dash.Table
other_session = (store.delete 14 (session 3) other_field).1

history :
    Reach unary store view (memory-Meets unary dash) 40 (session 1) "cart" written other_session
unfolding serialize_value to_string
history =
    next
      (next here (
        setting numbers 12 (session 1) "user" 8 (pos 60) (pos 60) none (8 ∷ []) written
          (omega arith) refl refl refl (inr (refl, refl))))
      (deleting 14 (session 3) other_field (omega arith) refl)

any-get-history_example :
    (get Tin ℕ (at store 40) numbers "cart" (record begun { store = other_session })).0
    ≡ ok (some 5)
unfolding serialize_value deserialize_value required_session_ttl
any-get-history_example =
    any-get-history Tin ℕ unary store view (memory-Meets unary dash) numbers 10 40 begun (session 9)
      "cart" 5 (some (pos 30)) none (5 ∷ []) (record begun { store = other_session }) tt
      (omega arith) refl refl refl refl refl refl history
