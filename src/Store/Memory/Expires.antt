-- ===== src/Store/Memory/Expires.antt =====
-- src/store/memory/mod.rs: `expire` in the terms of the contract.
use ruts.Prelude.{
  ℕ, ◌≤◌, String, ◌≡◌, Bool, true, false, ℤ, pos, ltb_ℤ, arith, eq_iff, Option-cases, inl, inr,
  Option, none, some, refl, ◌+◌, ◌*◌, to_nat,
}
use ruts.Outcome.{ok}
use ruts.HashMap.{keep_if, map_option}
use ruts.DashMap.{DashMap}
use ruts.SessionId.{SessionId, Base64, to_string}
use ruts.Store.Contract.{Expires}
use ruts.Store.Memory.{expire}
use ruts.Store.Memory.Answers.{instant}
use ruts.Store.Memory.Contract.{memory_timed, memory_view}
use ruts.Store.Memory.Expiry.{nanos, StoredValue, Fields, is_live, restamp}
use ruts.Store.Memory.Moves.{visible-expire}
use ruts.Store.Memory.View.{field_of}

-- a value with an expiry that has passed is not live
restamped-ended :
    (e t : ℕ) (o : Option StoredValue)
    → e ≤ t
    → keep_if (is_live t) (map_option (restamp (some e)) o) ≡ none
unfolding is_live
restamped-ended e t none h = refl
restamped-ended e t (some v) h = ground arith

module _ (b64 : Base64) (dash : DashMap Fields) where
  expire-answers :
      (now : ℕ) (id : SessionId) (seconds : ℤ) (table : dash.Table)
      → ltb_ℤ (pos 0) seconds ≡ true
      → (done : Bool) × ((expire b64 dash (instant now) id seconds table).0 ≡ ok done)
  unfolding expire
  expire-answers now id seconds table h = elim (Option-cases (dash.get table (to_string b64 id))) [
    | inl e ↦ (false, ground arith)
    | inr (fields, e) ↦ (true, ground arith)
  ]

  -- After an `expire` of the in-memory store with a positive lifetime, nothing of the session can be
  -- read from the end of that on, and the other sessions show what they did.
  pub memory-Expires : Expires b64 (memory_timed b64 dash) (memory_view b64 dash)
  memory-Expires = record {
    expire-view = λ now t id seconds s valid order positive ended.
        let (r, s') = expire b64 dash (instant now) id seconds s in
        let (done, answered) = expire-answers now id seconds s positive in
        let end = now + to_nat seconds * nanos in
        let after = λ (j : SessionId) (f : String).
          visible-expire b64 dash (instant now) t order s id id seconds j f (ground arith) in
        let over = λ (f : String).
          restamped-ended end t (field_of (dash.get s (to_string b64 id)) f) (ground arith) in
        (
          done,
          s',
          ground (arith, answered),
          λ f. ground (arith, after id f, over f, eq_iff (to_string b64 id) (to_string b64 id)),
          λ j f other. ground (arith, after j f),
          tt,
        );
  }
