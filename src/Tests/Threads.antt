-- ===== src/Tests/Threads.antt =====
-- The theorems on interleaved accesses of threads, at two threads on one session.
use ruts.Prelude.{ℕ, ◌≡◌, refl, none, some, [], ◌∷◌, arith}
use ruts.HashMap
use ruts.SessionId.{to_string}
use ruts.Store.Memory.Expiry.{StoredValue, Fields, is_live}
use ruts.Store.Memory.Interleaving.{sweeping, putting, taking, dropping, run, visible-run}
use ruts.Store.Memory.Races.{finishing, remove-loses-set}
use ruts.Store.Memory.View.{visible}
use ruts.Tests.Crates.{unary, session}
use ruts.Tests.Memory.{dash}

abbrev stored : ℕ → StoredValue
stored n = record { bytes = n ∷ []; expires_at = some 90 }

-- both threads have swept before the first one puts its value
visible-run_example :
    visible unary dash 20
      (run unary dash
        (sweeping 10
          ∷ sweeping 11
          ∷ putting (session 1) "cart" (stored 3)
          ∷ putting (session 1) "user" (stored 7)
          ∷ [])
        dash.new)
      (session 1)
      "cart"
    ≡ some (stored 3)
unfolding to_string is_live
visible-run_example =
    visible-run unary dash 20
      (sweeping 10
        ∷ sweeping 11
        ∷ putting (session 1) "cart" (stored 3)
        ∷ putting (session 1) "user" (stored 7)
        ∷ [])
      dash.new (session 1) "cart" (omega arith, (omega arith, (tt, (tt, tt))))

abbrev fields : Fields
fields = ("user", stored 7) ∷ []

abbrev table : dash.Table
table = dash.insert (to_string unary (session 1)) fields dash.new

remove-loses-set_example :
    (visible unary dash 20
        (run unary dash
          (taking (session 1) "user"
            ∷ putting (session 1) "cart" (stored 3)
            ∷ finishing unary dash (session 1) "user" fields)
          table)
        (session 1)
        "cart"
      ≡ none)
    × (visible unary dash 20
          (run unary dash
            (taking (session 1) "user"
              ∷ dropping (session 1)
              ∷ putting (session 1) "cart" (stored 3)
              ∷ [])
            table)
          (session 1)
          "cart"
        ≡ some (stored 3))
    × (visible unary dash 20
          (run unary dash
            (putting (session 1) "cart" (stored 3)
              ∷ taking (session 1) "user"
              ∷ finishing unary dash (session 1) "user" (("cart", stored 3) ∷ fields))
            table)
          (session 1)
          "cart"
        ≡ some (stored 3))
unfolding to_string is_live HashMap.remove HashMap.insert
remove-loses-set_example =
    remove-loses-set unary dash (session 1) "user" "cart" (stored 3) fields table 20 refl refl refl
      refl
