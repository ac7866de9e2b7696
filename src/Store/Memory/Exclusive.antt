-- ===== src/Store/Memory/Exclusive.antt =====
-- src/store/memory/mod.rs: of two threads that rename one session, one succeeds.
use ruts.Prelude.{
  ℕ, ◌≤◌, String, ◌≡◌, ◌⊎◌, inl, inr, refl, Bool, true, false, Option, none, some, Option-cases,
  arith, eq_iff,
}
use ruts.HashMap
use ruts.HashMap.{keep_if}
use ruts.DashMap.{DashMap}
use ruts.SessionId.{SessionId, Base64, to_string, same_session}
use ruts.Store.Memory.Expiry.{StoredValue, Fields, is_live}
use ruts.Store.Memory.{cleanup_expired}
use ruts.Store.Memory.View.{
  visible, visible-cleanup_expired, visible-insert, visible-found, visible-missing,
}
use ruts.Store.Memory.Renamers.{Phase, start, swept, checked, holding, done, advance}

-- a thread that has not reached its access to the old key
abbrev pub early : Phase → Bool
early start = true
early swept = true
early checked = true
early (holding fields) = false
early (done answer) = false

-- a thread that has not, or that has answered false
abbrev pub behind : Phase → Bool
behind start = true
behind swept = true
behind checked = true
behind (holding fields) = false
behind (done true) = false
behind (done false) = true

early-behind : (q : Phase) → early q ≡ true → behind q ≡ true
early-behind start h = refl
early-behind swept h = refl
early-behind checked h = refl
early-behind (holding fields) h = absurd (ground arith)
early-behind (done answer) h = absurd (ground arith)

module _ (b64 : Base64) (dash : DashMap Fields) (t : ℕ) (shows : String → Option StoredValue)
    (f : String) (v : StoredValue) (full : shows f ≡ some v) where
  -- What the session shows is in the table under the old id, and the new ones are free.
  pub record Unclaimed (old a b : SessionId) (table : dash.Table) (p q : Phase) : Type 0 where
    pub first_early : early p ≡ true
    pub second_early : early q ≡ true
    pub in_table : (g : String) → visible b64 dash t table old g ≡ shows g
    pub first_free : dash.get table (to_string b64 a) ≡ none
    pub second_free : dash.get table (to_string b64 b) ≡ none

  -- what the thread that has taken the session has of it
  abbrev pub Won : SessionId → dash.Table → Phase → Type 0
  Won a table start = true ≡ false
  Won a table swept = true ≡ false
  Won a table checked = true ≡ false
  Won a table (holding fields) = (g : String) → keep_if (is_live t) (HashMap.get fields g) ≡ shows g
  Won a table (done true) = (g : String) → visible b64 dash t table a g ≡ shows g
  Won a table (done false) = true ≡ false

  -- The thread for `a` has taken it, and the one for `b` is behind.
  pub record Claimed (old a b : SessionId) (table : dash.Table) (p q : Phase) : Type 0 where
    pub won : Won a table p
    pub lost : behind q ≡ true
    pub old_free : dash.get table (to_string b64 old) ≡ none
    pub other_free : dash.get table (to_string b64 b) ≡ none

  -- a key that is free stays so when a thread sweeps
  get-sweep :
      (now : ℕ) (table : dash.Table) (k : String)
      → dash.get table k ≡ none
      → dash.get (cleanup_expired b64 dash now table) k ≡ none
  unfolding cleanup_expired
  get-sweep now table k h = rw dash.get-retain (rw h refl)

  Won-sweep :
      (now : ℕ)
      → now ≤ t
      → (a : SessionId) (table : dash.Table) (p : Phase) → Won a table p
      → Won a (cleanup_expired b64 dash now table) p
  Won-sweep now order a table start h = h
  Won-sweep now order a table swept h = h
  Won-sweep now order a table checked h = h
  Won-sweep now order a table (holding fields) h = h
  Won-sweep now order a table (done true) h =
      λ g. ground (arith, visible-cleanup_expired b64 dash now t table a g order, h g)
  Won-sweep now order a table (done false) h = h

  module _ (now : ℕ) (order : now ≤ t) (old a b : SessionId)
      (apart : same_session b64 a old ≡ false) (apart' : same_session b64 b old ≡ false)
      (apart'' : same_session b64 a b ≡ false) (table : dash.Table) where
    -- the first thread moves before any has taken the session
    pub Unclaimed-advance :
        (p q : Phase)
        → Unclaimed old a b table p q
        → Unclaimed old a b
            (advance b64 dash now old a table p).0
            (advance b64 dash now old a table p).1
            q
          ⊎ Claimed old a b
              (advance b64 dash now old a table p).0
              (advance b64 dash now old a table p).1
              q
    unfolding advance
    Unclaimed-advance start q h = inl (record {
      first_early = refl;
      second_early = h.second_early;
      in_table = λ g.
          ground (arith, visible-cleanup_expired b64 dash now t table old g order, h.in_table g);
      first_free = get-sweep now table _ h.first_free;
      second_free = get-sweep now table _ h.second_free;
    })
    Unclaimed-advance swept q h =
        let same : advance b64 dash now old a table swept ≡ (table, checked) =
          ground (arith, h.first_free) in
        rw same (
          inl (record {
            first_early = refl;
            second_early = h.second_early;
            in_table = h.in_table;
            first_free = h.first_free;
            second_free = h.second_free;
          }))
    Unclaimed-advance checked q h = elim (Option-cases (dash.get table (to_string b64 old))) [
      | inl e ↦ absurd (ground (arith, visible-missing b64 dash t table old f e, h.in_table f))
      | inr (fields, e) ↦
          let same : advance b64 dash now old a table checked
              ≡ (dash.remove (to_string b64 old) table, holding fields) =
            ground arith in
          rw same (
            inr (record {
              won =
                  λ g. ground (arith, visible-found b64 dash t table old fields g e, h.in_table g);
              lost = early-behind q h.second_early;
              old_free = ground (
                arith,
                dash.get-remove table (to_string b64 old) (to_string b64 old),
                eq_iff (to_string b64 old) (to_string b64 old),
              );
              other_free = ground (
                arith,
                dash.get-remove table (to_string b64 old) (to_string b64 b),
                h.second_free,
              );
            }))
    ]
    Unclaimed-advance (holding fields) q h = absurd (ground (arith, h.first_early))
    Unclaimed-advance (done answer) q h = absurd (ground (arith, h.first_early))

    -- the thread that has taken the session moves
    pub Claimed-advance :
        (p q : Phase)
        → Claimed old a b table p q
        → Claimed old a b
            (advance b64 dash now old a table p).0
            (advance b64 dash now old a table p).1
            q
    unfolding advance
    Claimed-advance start q h = absurd (ground (arith, h.won))
    Claimed-advance swept q h = absurd (ground (arith, h.won))
    Claimed-advance checked q h = absurd (ground (arith, h.won))
    Claimed-advance (holding fields) q h = record {
      won = λ g. ground (
        arith,
        visible-insert b64 dash t a fields table a g,
        h.won g,
        eq_iff (to_string b64 a) (to_string b64 a),
      );
      lost = h.lost;
      old_free =
          ground
            (arith, dash.get-insert table (to_string b64 a) (to_string b64 old) fields, h.old_free);
      other_free =
          ground
            (arith, dash.get-insert table (to_string b64 a) (to_string b64 b) fields, h.other_free);
    }
    Claimed-advance (done true) q h = h
    Claimed-advance (done false) q h = absurd (ground (arith, h.won))

    -- the other one moves
    pub Claimed-advance_other :
        (p q : Phase)
        → Claimed old a b table p q
        → Claimed old a b
            (advance b64 dash now old b table q).0
            p
            (advance b64 dash now old b table q).1
    unfolding advance
    Claimed-advance_other p start h = record {
      won = Won-sweep now order a table p h.won;
      lost = refl;
      old_free = get-sweep now table _ h.old_free;
      other_free = get-sweep now table _ h.other_free;
    }
    Claimed-advance_other p swept h =
        let same : advance b64 dash now old b table swept ≡ (table, checked) =
          ground (arith, h.other_free) in
        rw same
          (record { won = h.won; lost = refl; old_free = h.old_free; other_free = h.other_free })
    Claimed-advance_other p checked h =
        let same : advance b64 dash now old b table checked ≡ (table, done false) =
          ground (arith, h.old_free) in
        rw same
          (record { won = h.won; lost = refl; old_free = h.old_free; other_free = h.other_free })
    Claimed-advance_other p (holding fields) h = absurd (ground (arith, h.lost))
    Claimed-advance_other p (done true) h = absurd (ground (arith, h.lost))
    Claimed-advance_other p (done false) h = h
