-- ===== src/Examples.antt =====
-- examples/: three applications, one for each store but the in-memory one. A route is an action on the
-- session of its request, over any store. The ids that its operations may draw and the values that it
-- writes are arguments.
pub mod Layered
pub mod Redis
pub mod Postgres
pub mod Uncached
use ruts.Prelude.{Option, none, some}
use ruts.Outcome.{Result, ok, err, panic, Action}
use ruts.SessionId.{SessionId}
use ruts.Store.Trait.{SessionStore}
use ruts.Session.{SessionAction, prepare_regenerate}

module _ (Cookies Key : Type 0) (store : SessionStore) where
  -- a call of `prepare_regenerate` whose answer is not used
  abbrev pub prepare : SessionId → SessionAction Cookies Key store (Unit {0})
  unfolding prepare_regenerate
  prepare fresh w = (ok tt, (prepare_regenerate Cookies Key store fresh w).1)

-- `unwrap_or_default` of a result that holds an option
abbrev pub unwrap_or_default : {E A : Type 0} → Result E (Option A) → Result E (Option A)
unwrap_or_default (ok a) = ok a
unwrap_or_default (err e) = ok none
unwrap_or_default panic = panic

abbrev pub or_default : {S E A : Type 0} → Action S E (Option A) → Action S E (Option A)
or_default m s = let (r, s') = m s in (unwrap_or_default r, s')
