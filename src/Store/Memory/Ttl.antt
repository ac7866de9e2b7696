-- ===== src/Store/Memory/Ttl.antt =====
-- src/store/memory/mod.rs: what `get_ttl` computes, against the fields that it looks at, and the
-- lifetime that `set` reports.
use ruts.Prelude.{
  ltb_ℤ, leb, sym, zero, suc, negsuc, Bool-cases, ℕ, ◌-◌, ◌/◌, ◌≤◌, ◌<◌, String, ◌≡◌, ◌≢◌, refl,
  Bool, true, false, ◌&&◌, Option, none, some, List, [], ◌∷◌, arith, str_eq, ltb, Option-cases, inl,
  inr, ℤ, pos, persistent, gone,
}
use mathlib.Core.Path.{subst}
use ruts.HashMap
use ruts.HashMap.{get-of_is_empty, HashMap, values, keep_if, is_empty, get-insert}
use ruts.DashMap.{DashMap}
use ruts.SessionId.{SessionId, Base64, to_string}
use ruts.Store.Memory.Expiry.{nanos, StoredValue, Fields, is_live, later, scan}
use ruts.Store.Memory.{get_ttl}
use ruts.Store.Memory.View.{visible}

-- a lifetime of at least `n` seconds, or without end
abbrev pub at_least : ℕ → ℤ → Bool
at_least n (pos m) = leb n m
at_least n (negsuc zero) = true
at_least n (negsuc (suc k)) = false

-- A lifetime that covers an expiry: without end, or at least the seconds that are left.
abbrev pub Covers : ℕ → Option ℕ → ℤ → Type 0
Covers now none ttl = ttl ≡ persistent
Covers now (some e) ttl = at_least ((e - now) / nanos) ttl ≡ true

div_mono : (a b c : ℕ) → a ≤ b → (a - c) / nanos ≤ (b - c) / nanos
div_mono a b c h = omega arith

module _ (now : ℕ) where
  scan-none :
      (best : Option ℕ) (v : StoredValue) (vs : List StoredValue)
      → v.expires_at ≡ none
      → scan now best (v ∷ vs) ≡ persistent
  unfolding scan
  scan-none best v vs h = ground arith

  scan-some :
      (best : Option ℕ) (v : StoredValue) (vs : List StoredValue) (e : ℕ)
      → v.expires_at ≡ some e
      → scan now best (v ∷ vs) ≡ scan now (later now best e) vs
  unfolding scan
  scan-some best v vs e h = ground arith

  later-grows : (c e : ℕ) → (d : ℕ) × (later now (some c) e ≡ some d) × (c ≤ d)
  unfolding later
  later-grows c e = elim (Bool-cases (ltb now e && ltb c e)) [
    | inl p ↦ (e, ground arith, ground arith)
    | inr p ↦ (c, ground arith, ground arith)
  ]

  later-covers :
      (best : Option ℕ) (e : ℕ) → now < e → (d : ℕ) × (later now best e ≡ some d) × (e ≤ d)
  unfolding later
  later-covers none e h = (e, ground arith, omega arith)
  later-covers (some c) e h = elim (Bool-cases (ltb c e)) [
    | inl p ↦ (e, ground arith, ground arith)
    | inr p ↦ (c, ground arith, ground arith)
  ]

  -- the loop never falls below what it has found
  scan_best :
      (n c : ℕ) (vs : List StoredValue)
      → n ≤ c
      → at_least ((n - now) / nanos) (scan now (some c) vs) ≡ true
  scan_best n c [] h = unfold scan in ground (arith, div_mono n c now h)
  scan_best n c (v ∷ vs) h = elim (Option-cases v.expires_at) [
    | inl e ↦ rw (scan-none (some c) v vs e) refl
    | inr (e, p) ↦
        let (d, q, le) = later-grows c e in
        rw (scan-some (some c) v vs e p, q) (scan_best n d vs (omega arith))
  ]

  Covers-persistent : (o : Option ℕ) → Covers now o persistent
  Covers-persistent none = refl
  Covers-persistent (some e) = refl

  scan_head :
      (best : Option ℕ) (v : StoredValue) (vs : List StoredValue)
      → is_live now v ≡ true
      → Covers now v.expires_at (scan now best (v ∷ vs))
  scan_head best v vs live = elim (Option-cases v.expires_at) [
    | inl e ↦ subst (λ o. Covers now o (scan now best (v ∷ vs))) (sym e) (scan-none best v vs e)
    | inr (e, p) ↦
        let later_live : now < e = unfold is_live in ground arith in
        let (d, q, le) = later-covers best e later_live in
        subst (λ o. Covers now o (scan now best (v ∷ vs))) (sym p)
          (rw (scan-some best v vs e p, q) (scan_best e d vs le))
  ]

  -- The loop covers every live value of the map.
  scan-Covers :
      (best : Option ℕ) (fields : Fields) (f : String) (v : StoredValue)
      → HashMap.get fields f ≡ some v
      → is_live now v ≡ true
      → Covers now v.expires_at (scan now best (values fields))
  scan-Covers best [] f v h live = unfold HashMap.get in absurd (ground arith)
  scan-Covers best ((k, w) ∷ fields) f v h live = elim (Bool-cases (str_eq k f)) [
    | inl here ↦
        let same : w ≡ v = unfold HashMap.get in ground arith in
        rw same (scan_head best v (values fields) live)
    | inr there ↦
        let below : HashMap.get fields f ≡ some v = unfold HashMap.get in ground arith in
        elim (Option-cases w.expires_at) [
          | inl e ↦ rw (scan-none best w (values fields) e) (Covers-persistent v.expires_at)
          | inr (e, p) ↦
              rw (scan-some best w (values fields) e p)
                (scan-Covers (later now best e) fields f v below live)
        ]
  ]

module _ (b64 : Base64) (dash : DashMap Fields) where
  -- The lifetime that `get_ttl` gives to a session covers each of its fields that can be read: it
  -- is -1 if the field does not expire, and else -1 or at least the whole seconds that the field
  -- has left.
  pub get_ttl-Covers :
      (now : ℕ) (table : dash.Table) (id : SessionId) (f : String) (v : StoredValue)
      → visible b64 dash now table id f ≡ some v
      → Covers now v.expires_at (get_ttl b64 dash now id table)
  get_ttl-Covers now table id f v seen = elim (Option-cases (dash.get table (to_string b64 id))) [
    | inl e ↦ absurd (unfold visible in ground arith)
    | inr (fields, e) ↦
        let found : HashMap.get fields f ≡ some v = unfold visible in ground arith in
        let live : is_live now v ≡ true = unfold visible in ground arith in
        let same : get_ttl b64 dash now id table ≡ scan now none (values fields) =
          unfold get_ttl in ground (arith, get-of_is_empty fields f) in
        rw same (scan-Covers now none fields f v found live)
  ]

  Covers-ne-gone : (now : ℕ) (o : Option ℕ) (ttl : ℤ) → Covers now o ttl → ttl ≢ gone
  Covers-ne-gone now none ttl c e = cc
  Covers-ne-gone now (some x) ttl c e = ground arith

  -- `get_ttl` says that a session is gone only if none of its fields can be read.
  pub get_ttl-gone :
      (now : ℕ) (table : dash.Table) (id : SessionId) (f : String)
      → get_ttl b64 dash now id table ≡ gone
      → visible b64 dash now table id f ≡ none
  get_ttl-gone now table id f h = elim (Option-cases (visible b64 dash now table id f)) [
    | inl e ↦ e
    | inr (v, e) ↦ absurd (Covers-ne-gone now v.expires_at _ (get_ttl-Covers now table id f v e) h)
  ]

-- a lifetime that covers an expiry is one with which `Session` reports success
pub Covers-above : (now : ℕ) (o : Option ℕ) (ttl : ℤ) → Covers now o ttl → ltb_ℤ gone ttl ≡ true
Covers-above now none ttl c = rw c refl
Covers-above now (some e) ttl c = ground arith
