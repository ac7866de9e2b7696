-- ===== src/Store/Memory/Renamers.antt =====
-- src/store/memory/mod.rs: two threads in `rename_session_id` on one session, as the handlers of two
-- requests that regenerate its id at a time. A thread makes its accesses to the concurrent map one by
-- one; each access holds the lock of its entry.
use ruts.Prelude.{
  ℕ, ◌≤◌, ◌≡◌, Bool, true, false, not, Option, none, some, Option-cases, inl, inr, arith,
}
use ruts.Outcome.{ok}
use ruts.DashMap.{DashMap}
use ruts.SessionId.{SessionId, Base64, to_string}
use ruts.Store.Memory.Expiry.{Fields, Clock}
use ruts.Store.Memory.{cleanup_expired, rename_session_id}

-- how far a thread is: it has swept, it has seen that the new key is free, it holds the fields that it
-- has taken from the old key, it has answered
pub data Phase : Type 0 where
  start swept checked : Phase
  holding : Fields → Phase
  done : Bool → Phase

abbrev is_there : Option Fields → Bool
is_there none = false
is_there (some fields) = true

abbrev is_free : Option Fields → Bool
is_free o = not (is_there o)

module _ (b64 : Base64) (dash : DashMap Fields) where
  -- the next access of a thread
  unfoldable pub advance : ℕ → SessionId → SessionId → dash.Table → Phase → dash.Table × Phase
  unfolding cleanup_expired to_string
  advance now old new table start = (cleanup_expired b64 dash now table, swept)
  advance now old new table swept = elim (dash.get table (to_string b64 new)) [
    | some _ ↦ (table, done false)
    | none ↦ (table, checked)
  ]
  advance now old new table checked = elim (dash.get table (to_string b64 old)) [
    | none ↦ (table, done false)
    | some fields ↦ (dash.remove (to_string b64 old) table, holding fields)
  ]
  advance now old new table (holding fields) =
      (dash.insert (to_string b64 new) fields table, done true)
  advance now old new table (done answer) = (table, done answer)

  abbrev pub then_advance : ℕ → SessionId → SessionId → dash.Table × Phase → dash.Table × Phase
  then_advance now old new s = advance now old new s.0 s.1

  -- Four accesses of one thread alone, at the instant of its sweep, end in the table and the answer
  -- of the method `rename_session_id`, which never fails.
  pub advance-alone :
      (clock : Clock) (old new : SessionId) (table : dash.Table)
      → (answer : Bool) × (rename_session_id b64 dash clock old new table
          ≡ (ok answer, (rename_session_id b64 dash clock old new table).1))
        × (then_advance clock.swept old new (
              then_advance clock.swept old new
                (then_advance clock.swept old new (advance clock.swept old new table start)))
            ≡ ((rename_session_id b64 dash clock old new table).1, done answer))
  unfolding rename_session_id advance
  advance-alone clock old new table =
      let s = cleanup_expired b64 dash clock.swept table in
      elim (Option-cases (dash.get s (to_string b64 new))) [
        | inr (taken, e) ↦ (false, ground arith, ground arith)
        | inl e ↦ elim (Option-cases (dash.get s (to_string b64 old))) [
          | inl e' ↦ (false, ground arith, ground arith)
          | inr (fields, e') ↦ (true, ground arith, ground arith)
        ]
      ]

  -- the table and the two threads, of which one renames `old` to `a` and the other one to `b`
  pub record Threads : Type 0 where
    pub table : dash.Table
    pub first : Phase
    pub second : Phase

  module _ (t : ℕ) (old a b : SessionId) where
    -- One of the threads makes its next access, at an instant no later than `t`.
    pub data Step : Threads → Threads → Type 0 where
      stepping :
          (now : ℕ) (s : Threads)
          → now ≤ t
          → Step s (record s {
            table = (advance now old a s.table s.first).0;
            first = (advance now old a s.table s.first).1;
          })
      stepping_second :
          (now : ℕ) (s : Threads)
          → now ≤ t
          → Step s (record s {
            table = (advance now old b s.table s.second).0;
            second = (advance now old b s.table s.second).1;
          })

    pub data Reach (s : Threads) : Threads → Type 0 where
      here : Reach s s
      next : {u v : Threads} → Reach s u → Step u v → Reach s v
