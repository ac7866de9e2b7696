-- ===== src/Tests/Moved.antt =====
-- `set_and_rename` of the in-memory store, with a value that is encoded and with one that is not.
use ruts.Prelude.{String, ◌≡◌, refl, none, some, [], ◌∷◌, pos, ℤ, arith}
use ruts.Outcome.{Result, err}
use ruts.HashMap
use ruts.SessionId.{to_string}
use ruts.Store.Codec.{Error, encode, serialize_value}
use ruts.Store.Memory.Expiry.{is_live, determine_expiry}
use ruts.Store.Memory.{set_and_rename}
use ruts.Store.Memory.Moves.{visible-set_and_rename, visible-set_and_rename_failing}
use ruts.Store.Memory.View.{visible}
use ruts.Tests.Crates.{unary, numbers, session}
use ruts.Tests.Memory.{dash, clock, stored, table}

abbrev after : dash.Table
after =
    (set_and_rename unary dash numbers clock (session 1) (session 2) "cart" 5 (pos 60) (pos 30) none
      table).1

-- the value, and the user that the session had
visible-set_and_rename_example :
    visible unary dash 20 after (session 2) "cart" ≡ some (stored 5 (some 30_000_000_011))
unfolding serialize_value to_string HashMap.get is_live determine_expiry
visible-set_and_rename_example =
    visible-set_and_rename unary dash clock 20 (omega arith) table (session 1) (session 2) numbers
      "cart" 5 (pos 60) (pos 30) none (λ e. ground arith) (λ e. ground arith) (5 ∷ []) refl
      (session 2) "cart"

abbrev failed : Result Error ℤ × dash.Table
failed =
    set_and_rename unary dash numbers clock (session 1) (session 2) "cart" 300 (pos 60) (pos 30)
      none table

visible-set_and_rename_failing_example :
    (failed.0 ≡ err (encode "too large"))
    × ((f : String) → visible unary dash 20 failed.1 (session 1) f ≡ none)
unfolding serialize_value
visible-set_and_rename_failing_example =
    visible-set_and_rename_failing unary dash clock 20 (omega arith) table (session 1) (session 2)
      numbers "cart" 300 (pos 60) (pos 30) none (λ e. ground arith) (λ e. ground arith)
      (encode "too large") refl
