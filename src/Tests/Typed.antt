-- ===== src/Tests/Typed.antt =====
-- The ids of a request at a generator that draws zeros.
use ruts.Prelude.{ℕ, zero, suc, ◌≡◌, refl, List, [], ◌∷◌, none, some, pos, arith, length}
use ruts.Outcome.{ok}
use ruts.SessionId.{IsBytes}
use ruts.SessionId.Random.{Rng}
use ruts.Session.{World}
use ruts.Session.State.{Inner}
use ruts.Tests.Crates.{session, Tin}
use ruts.Tests.Memory.{dash, table}
use ruts.Tests.Web.{jar}

abbrev zeros : ℕ → List ℕ
zeros zero = []
zeros (suc n) = 0 ∷ zeros n

zeros-IsBytes : (n : ℕ) → (length (zeros n) ≡ n) × IsBytes (zeros n)
zeros-IsBytes zero = (refl, tt)
zeros-IsBytes (suc n) = ground (arith, zeros-IsBytes n)

-- The state counts the calls.
abbrev zero_rng : Rng
zero_rng = record {
  State = ℕ;
  try_fill_bytes = λ n s. (ok (zeros n), suc s);
  filled = λ n s bs e. ground (arith, zeros-IsBytes n);
}

abbrev inner : Inner Tin ℕ
inner = record {
  state = 0;
  id = some (session 0);
  pending_id = none;
  cookie_max_age = pos 600;
  cookie_name = some "session";
  cookies = some jar;
  signing_key = none;
}

abbrev started : World Tin ℕ dash.Table
started = record { inner = inner; store = table }
