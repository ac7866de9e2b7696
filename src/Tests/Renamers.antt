-- ===== src/Tests/Renamers.antt =====
-- Two threads that rename one session, at a concrete interleaving.
use ruts.Prelude.{String, ◌≡◌, ◌⊎◌, refl, Bool, true, false, none, arith}
use ruts.Outcome.{ok}
use ruts.HashMap
use ruts.SessionId.{to_string}
use ruts.Store.Memory.{rename_session_id}
use ruts.Store.Memory.Expiry.{is_live}
use ruts.Store.Memory.View.{visible}
use ruts.Store.Memory.Renamers.{
  start, done, advance, then_advance, Threads, stepping, stepping_second, Reach, here, next,
  advance-alone,
}
use ruts.Store.Memory.Winner.{one_wins}
use ruts.Tests.Crates.{unary, session}
use ruts.Tests.Memory.{dash, clock, table, stored}

-- The second thread takes the session between the first one's look at its new key and its access to
-- the old one.
abbrev begun : Threads unary dash
begun = record { table = table; first = start; second = start }

abbrev first_moves : Threads unary dash → Threads unary dash
first_moves s = record s {
  table = (advance unary dash 10 (session 1) (session 2) s.table s.first).0;
  first = (advance unary dash 10 (session 1) (session 2) s.table s.first).1;
}

abbrev second_moves : Threads unary dash → Threads unary dash
second_moves s = record s {
  table = (advance unary dash 10 (session 1) (session 3) s.table s.second).0;
  second = (advance unary dash 10 (session 1) (session 3) s.table s.second).1;
}

abbrev looked : Threads unary dash
looked = second_moves (first_moves (second_moves (first_moves begun)))

abbrev ended : Threads unary dash
ended = second_moves (first_moves (second_moves looked))

looked-Reach : Reach unary dash 20 (session 1) (session 2) (session 3) begun looked
looked-Reach =
    next
      (next
        (next (next here (stepping 10 begun (omega arith)))
          (stepping_second 10 (first_moves begun) (omega arith)))
        (stepping 10 (second_moves (first_moves begun)) (omega arith)))
      (stepping_second 10 (first_moves (second_moves (first_moves begun))) (omega arith))

ended-Reach : Reach unary dash 20 (session 1) (session 2) (session 3) begun ended
ended-Reach =
    next
      (next (next looked-Reach (stepping_second 10 looked (omega arith)))
        (stepping 10 (second_moves looked) (omega arith)))
      (stepping_second 10 (first_moves (second_moves looked)) (omega arith))

one_wins_example :
    ((false ≡ true)
      × (true ≡ false)
      × ((g : String)
          → (visible unary dash 20 ended.table (session 1) g ≡ none)
            × (visible unary dash 20 ended.table (session 2) g
                ≡ visible unary dash 20 table (session 1) g)
            × (visible unary dash 20 ended.table (session 3) g ≡ none)))
    ⊎ ((false ≡ false)
        × (true ≡ true)
        × ((g : String)
            → (visible unary dash 20 ended.table (session 1) g ≡ none)
              × (visible unary dash 20 ended.table (session 3) g
                  ≡ visible unary dash 20 table (session 1) g)
              × (visible unary dash 20 ended.table (session 2) g ≡ none)))
unfolding to_string visible HashMap.get is_live advance HashMap.retain
one_wins_example =
    one_wins unary dash 20 (session 1) (session 2) (session 3) refl refl refl table "user"
      (stored 7 none) refl ended false true refl refl ended-Reach refl refl

advance-alone_example :
    (answer : Bool) × (rename_session_id unary dash clock (session 1) (session 2) table
      ≡ (ok answer, (rename_session_id unary dash clock (session 1) (session 2) table).1))
    × (then_advance unary dash 10 (session 1) (session 2) (
          then_advance unary dash 10 (session 1) (session 2) (
            then_advance unary dash 10
              (session 1)
              (session 2)
              (advance unary dash 10 (session 1) (session 2) table start)))
        ≡ ((rename_session_id unary dash clock (session 1) (session 2) table).1, done answer))
advance-alone_example = advance-alone unary dash clock (session 1) (session 2) table
