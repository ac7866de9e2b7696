-- ===== src/Tests/Sessions.antt =====
-- The theorems on src/session/mod.rs and src/session/id.rs at concrete sessions, over the in-memory
-- store.
use ruts.Prelude.{ℕ, refl, Option, none, some, pos, arith}
use ruts.SessionId.{SessionId, IsSessionId}
use ruts.Store.Memory.{memory_store}
use ruts.Session.State.{Inner, new}
use ruts.Session.{World, set}
use ruts.Tests.Crates.{unary, numbers, session, Tin}
use ruts.Tests.Memory.{dash, clock, table}

abbrev pub inner : Option SessionId → Option SessionId → Inner Tin ℕ
inner id pending_id = record {
  state = 0;
  id = id;
  pending_id = pending_id;
  cookie_max_age = pos 60;
  cookie_name = some "session";
  cookies = none;
  signing_key = none;
}

abbrev pub world : Option SessionId → Option SessionId → World Tin ℕ dash.Table
world id pending_id = record { inner = inner id pending_id; store = table }

abbrev pub rotating : World Tin ℕ dash.Table
rotating = world (some (session 1)) (some (session 2))

abbrev fresh_world : World Tin ℕ dash.Table
fresh_world = record { inner = new (some "session") none none; store = table }

abbrev after_set : World Tin ℕ dash.Table
after_set =
    (set Tin ℕ (memory_store unary dash clock) numbers (session 9) "cart" 5 (some (pos 30)) none
      fresh_world).1

pub session-IsSessionId : IsSessionId (session 1)
session-IsSessionId = record { sixteen = refl; in_range = ground arith }
