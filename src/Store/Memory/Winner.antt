-- ===== src/Store/Memory/Winner.antt =====
-- src/store/memory/mod.rs: how two threads that rename one session end.
use mathlib.Core.Path.{subst}
use ruts.Prelude.{
  ℕ, String, ◌≡◌, ◌⊎◌, inl, inr, refl, Bool, true, false, Option, none, some, arith, eq_iff,
}
use ruts.DashMap.{DashMap}
use ruts.SessionId.{SessionId, Base64, to_string, same_session}
use ruts.Store.Memory.Expiry.{StoredValue, Fields}
use ruts.Store.Memory.View.{visible, visible-missing}
use ruts.Store.Memory.Renamers.{
  Phase, start, done, Threads, Step, stepping, stepping_second, Reach, here, next,
}
use ruts.Store.Memory.Exclusive.{
  Unclaimed, Claimed, Unclaimed-advance, Claimed-advance, Claimed-advance_other,
}

at_phases : (P : Phase → Phase → Type 0) {p p' q q' : Phase} → p ≡ p' → q ≡ q' → P p q → P p' q'
at_phases P {p = p} {q' = q'} e e' h = subst (λ p. P p q') e (subst (λ q. P p q) e' h)

module _ (b64 : Base64) (dash : DashMap Fields) (t : ℕ) (old a b : SessionId)
    (apart : same_session b64 a old ≡ false) (apart' : same_session b64 b old ≡ false)
    (apart'' : same_session b64 a b ≡ false) (before : dash.Table) (f : String) (v : StoredValue)
    (full : visible b64 dash t before old f ≡ some v) where
  abbrev shows : String → Option StoredValue
  shows g = visible b64 dash t before old g

  -- No thread has taken the session, or one of them has.
  abbrev Inv : Threads b64 dash → Type 0
  Inv s =
      Unclaimed b64 dash t shows f v full old a b s.table s.first s.second
      ⊎ (Claimed b64 dash t shows f v full old a b s.table s.first s.second
          ⊎ Claimed b64 dash t shows f v full old b a s.table s.second s.first)

  apart-flipped : same_session b64 b a ≡ false
  apart-flipped = ground (
    arith,
    eq_iff (to_string b64 a) (to_string b64 b),
    eq_iff (to_string b64 b) (to_string b64 a),
  )

  swap :
      (x y : SessionId) (table : dash.Table) (p q : Phase)
      → Unclaimed b64 dash t shows f v full old x y table p q
      → Unclaimed b64 dash t shows f v full old y x table q p
  swap x y table p q h = record {
    first_early = h.second_early;
    second_early = h.first_early;
    in_table = h.in_table;
    first_free = h.second_free;
    second_free = h.first_free;
  }

  Step-Inv : {s u : Threads b64 dash} → Step b64 dash t old a b s u → Inv s → Inv u
  Step-Inv (stepping now s order) (inl h) =
      elim (Unclaimed-advance b64 dash t shows f v full now order old a b apart apart' apart''
        s.table s.first s.second h) [ inl h' ↦ inl h' | inr h' ↦ inr (inl h') ]
  Step-Inv (stepping now s order) (inr (inl h)) = inr (
      inl (
        Claimed-advance b64 dash t shows f v full now order old a b apart apart' apart'' s.table
          s.first s.second h))
  Step-Inv (stepping now s order) (inr (inr h)) = inr (
      inr (
        Claimed-advance_other b64 dash t shows f v full now order old b a apart' apart apart-flipped
          s.table s.second s.first h))
  Step-Inv (stepping_second now s order) (inl h) =
      elim (Unclaimed-advance b64 dash t shows f v full now order old b a apart' apart apart-flipped
        s.table s.second s.first (swap a b s.table s.first s.second h)) [
          | inl h' ↦ inl (swap b a _ _ _ h')
          | inr h' ↦ inr (inr h')
        ]
  Step-Inv (stepping_second now s order) (inr (inl h)) = inr (
      inl (
        Claimed-advance_other b64 dash t shows f v full now order old a b apart apart' apart''
          s.table s.first s.second h))
  Step-Inv (stepping_second now s order) (inr (inr h)) = inr (
      inr (
        Claimed-advance b64 dash t shows f v full now order old b a apart' apart apart-flipped
          s.table s.second s.first h))

  Reach-Inv : {s u : Threads b64 dash} → Reach b64 dash t old a b s u → Inv s → Inv u
  Reach-Inv here h = h
  Reach-Inv (next r step) h = Step-Inv step (Reach-Inv r h)

  -- how it ends for the session's ids: the old one shows nothing, the winner's what the old one
  -- showed, and the other one nothing
  abbrev pub Ends : SessionId → SessionId → dash.Table → Type 0
  Ends winner loser table =
      (g : String)
      → (visible b64 dash t table old g ≡ none)
        × (visible b64 dash t table winner g ≡ visible b64 dash t before old g)
        × (visible b64 dash t table loser g ≡ none)

  Claimed-Ends :
      (x y : SessionId) (table : dash.Table) (r r' : Bool)
      → Claimed b64 dash t shows f v full old x y table (done r) (done r')
      → (r ≡ true) × (r' ≡ false) × Ends x y table
  Claimed-Ends x y table true false h = (
    refl,
    refl,
    λ g. (
      visible-missing b64 dash t table old g h.old_free,
      h.won g,
      visible-missing b64 dash t table y g h.other_free,
    ),
  )
  Claimed-Ends x y table true true h = absurd (ground (arith, h.lost))
  Claimed-Ends x y table false r' h = absurd (ground (arith, h.won))

  -- Two threads rename one session, which has a field that can be read, to two different ids that
  -- no session has, in any interleaving of their accesses, seen from an instant not before these.
  -- When both have answered, exactly one of them has answered true; its id shows what the old one
  -- showed, and the old id and that of the other one show nothing.
  pub one_wins :
      (s : Threads b64 dash) (x y : Bool)
      → dash.get before (to_string b64 a) ≡ none
      → dash.get before (to_string b64 b) ≡ none
      → Reach b64 dash t old a b (record { table = before; first = start; second = start }) s
      → s.first ≡ done x
      → s.second ≡ done y
      → ((x ≡ true) × (y ≡ false) × Ends a b s.table)
        ⊎ ((x ≡ false) × (y ≡ true) × Ends b a s.table)
  one_wins s x y free free' r first second =
      let start_Inv : Inv (record { table = before; first = start; second = start }) = inl (record {
        first_early = refl;
        second_early = refl;
        in_table = λ g. refl;
        first_free = free;
        second_free = free';
      }) in
      elim (Reach-Inv r start_Inv) [
        | inl h ↦ absurd (ground (arith, h.first_early))
        | inr c ↦ elim c [
          | inl h ↦ inl (
              Claimed-Ends a b s.table x y (
                at_phases (λ p q. Claimed b64 dash t shows f v full old a b s.table p q) first
                  second h))
          | inr h ↦
              let (won, lost, ends) = Claimed-Ends b a s.table y x (
                at_phases (λ p q. Claimed b64 dash t shows f v full old b a s.table p q) second
                  first h) in
              inr (lost, won, ends)
        ]
      ]
