-- ===== src/Tests/AnyStore.antt =====
-- The contract of a store for the three stores, and the theorems over any store that meets it, at
-- the in-memory one.
use ruts.Prelude.{
  false, ℕ, String, ◌≡◌, refl, none, some, true, [], ◌∷◌, pos, arith, str_eq, if◌then◌else◌,
}
use ruts.Outcome.{ok}
use ruts.SessionId.{SessionId, same_session, to_string, from_str}
use ruts.Store.Codec.{Bytes, serialize_value, deserialize_value}
use ruts.Store.Contract.{Timed, at, View, Meets}
use ruts.Store.Memory.Contract.{memory_timed, memory_view, memory-Meets}
use ruts.Store.Redis.Contract.{redis_timed, redis_view, redis-Meets}
use ruts.Store.Postgres.Contract.{postgres_timed, postgres_view, postgres-Meets}
use ruts.HashMap
use ruts.HashMap.{map_option}
use ruts.Store.Memory.View.{visible}
use ruts.Store.Memory.Expiry.{is_live}
use ruts.Session.State.{session_state_changed, Inner, required_session_ttl}
use ruts.Session.{World, get, set, remove, delete, regenerate}
use ruts.Session.AnyStore.{any-get-set, any-set-rotates, any-get-remove, any-regenerate}
use ruts.Service.{ready, poll, call}
use ruts.Extract.{from_request_parts}
use ruts.Extract.Cycle.{cycle}
use ruts.Tests.Crates.{unary, numbers, session, Tin, biscuits, tins}
use ruts.Tests.Memory.{dash}
use ruts.Tests.Server.{server}
use ruts.Tests.Sessions.{world, rotating, session-IsSessionId}
use ruts.Tests.Web.{options, service, jar, body}

memory-Meets_example : Meets unary (memory_timed unary dash) (memory_view unary dash)
memory-Meets_example = memory-Meets unary dash

redis-Meets_example : Meets unary (redis_timed unary server) (redis_view unary server)
redis-Meets_example = redis-Meets unary server

postgres-Meets_example :
    Meets unary (postgres_timed unary "duplicate") (postgres_view unary "duplicate")
postgres-Meets_example = postgres-Meets unary "duplicate"

abbrev store : Timed
store = memory_timed unary dash

abbrev view : View dash.Table
view = memory_view unary dash

abbrev written : World Tin ℕ dash.Table
written =
    (set Tin ℕ (at store 10) numbers (session 9) "cart" 5 (some (pos 30)) none
      (world (some (session 1)) none)).1

any-get-set_example :
    ((set Tin ℕ
        (at store 10)
        numbers
        (session 9)
        "cart"
        5
        (some (pos 30))
        none
        (world (some (session 1)) none)).0
      ≡ ok true)
    × ((get Tin ℕ (at store 40) numbers "cart" written).0 ≡ ok (some 5))
unfolding serialize_value deserialize_value required_session_ttl
any-get-set_example =
    any-get-set Tin ℕ unary store view (memory-Meets unary dash) numbers 10 40
      (world (some (session 1)) none) tt (omega arith) (session 9) "cart" 5 (some (pos 30)) none
      (5 ∷ []) refl refl refl refl refl

abbrev rotated : World Tin ℕ dash.Table
rotated = (set Tin ℕ (at store 10) numbers (session 9) "cart" 5 (some (pos 30)) none rotating).1

any-set-rotates_example :
    ((set Tin ℕ (at store 10) numbers (session 9) "cart" 5 (some (pos 30)) none rotating).0
      ≡ ok true)
    × (rotated.inner.id ≡ some (session 2))
    × (view.view 40 rotated.store (session 2) "cart" ≡ some (5 ∷ []))
    × ((f : String) (b : Bytes)
        → view.view 40 rotating.store (session 1) f ≡ some b
        → view.view 40 rotated.store (session 2) f ≡ some (if str_eq "cart" f then 5 ∷ [] else b))
    × ((g : String) → view.view 40 rotated.store (session 1) g ≡ none)
unfolding serialize_value required_session_ttl to_string is_live visible HashMap.get
any-set-rotates_example =
    any-set-rotates Tin ℕ unary store view (memory-Meets unary dash) numbers 10 40 rotating tt
      (omega arith) (session 9) "cart" 5 (some (pos 30)) none (5 ∷ []) refl refl refl (session 1)
      (session 2) refl refl refl refl refl

any-get-remove_example :
    ((get Tin ℕ
        (at store 40)
        numbers
        "user"
        (remove Tin ℕ (at store 10) "user" (world (some (session 1)) none)).1).0
      ≡ ok none)
    × ((get Tin ℕ
          (at store 40)
          numbers
          "user"
          (delete Tin ℕ (at store 10) (world (some (session 1)) none)).1).0
        ≡ ok none)
any-get-remove_example =
    any-get-remove Tin ℕ unary store view (memory-Meets unary dash) numbers 10 40
      (world (some (session 1)) none) tt (omega arith) (session 1) refl "user"

any-regenerate_example :
    (s' : dash.Table) × (regenerate Tin ℕ (at store 10) (session 2) (world (some (session 1)) none)
      ≡ (
        ok (some (session 2)),
        record (world (some (session 2)) none) {
          inner = record (world (some (session 2)) none).inner { state = session_state_changed };
          store = s';
        },
      ))
    × ((f : String)
        → view.view 40 s' (session 2) f
          ≡ view.view 40 (world (some (session 1)) none).store (session 1) f)
    × ((f : String) → view.view 40 s' (session 1) f ≡ none)
    × ((j : SessionId) (f : String)
        → same_session unary (session 2) j ≡ false
        → same_session unary (session 1) j ≡ false
        → view.view 40 s' j f ≡ view.view 40 (world (some (session 1)) none).store j f)
unfolding to_string visible is_live HashMap.get
any-regenerate_example =
    any-regenerate Tin ℕ unary store view (memory-Meets unary dash) numbers 10 40
      (world (some (session 1)) none) tt (omega arith) (session 1) (session 2) "user" (7 ∷ []) refl
      refl refl refl refl

-- the session of the first request, whose cookie carries `session 0`
abbrev first : Inner Tin ℕ
first = record {
  state = 0;
  id = some (session 0);
  pending_id = none;
  cookie_max_age = pos 600;
  cookie_name = some "session";
  cookies = some jar;
  signing_key = none;
}

cycle_example :
    (w : World Tin ℕ dash.Table) × (set Tin ℕ
        (at store 10)
        numbers
        (session 1)
        "cart"
        5
        none
        none
        (record { inner = first; store = dash.new })
      ≡ (ok true, w))
    × (j : Tin) × ((poll unary biscuits tins {E = ℕ}
          (ready body)
          (some (options none))
          w.inner).1.cookies
        ≡ some j)
    × (second : Inner Tin ℕ) × (from_request_parts unary biscuits tins
          (call (service none) (record { session = none; cookies = some j })).1
        ≡ ok second)
    × ((get Tin ℕ (at store 40) numbers "cart" (record { inner = second; store = w.store })).0
        ≡ ok (some 5))
unfolding serialize_value deserialize_value required_session_ttl from_request_parts call from_str
cycle_example =
    cycle unary biscuits tins (service none) (options none) refl store view
      (memory-Meets unary dash) numbers 10 40 (omega arith) ℕ "body" jar first dash.new (session 1)
      "cart" 5 none none (5 ∷ []) tt session-IsSessionId refl refl refl refl refl
