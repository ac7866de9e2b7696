-- ===== src/Store/Memory/Renames.antt =====
-- src/store/memory/mod.rs: when `rename_session_id` moves a session.
use ruts.Prelude.{
  ℕ, ◌≤◌, String, ◌≡◌, true, false, Option, none, some, [], ◌∷◌, arith, eq_iff, Option-cases, inl,
  inr, if◌then◌else◌,
}
use ruts.Outcome.{ok}
use ruts.HashMap
use ruts.HashMap.{HashMap, is_empty, keep_if, get-retain}
use ruts.DashMap.{DashMap, retained}
use ruts.SessionId.{SessionId, Base64, to_string, same_session}
use ruts.Store.Memory.{cleanup_expired, rename_session_id}
use ruts.Store.Memory.Expiry.{StoredValue, Fields, Clock, is_live, sweep}
use ruts.Store.Memory.View.{visible, visible-cleanup_expired, visible-missing, visible-found}
use ruts.Store.Memory.Moves.{visible-rename_session_id}

-- a map that is not empty has a field
first_field :
    (fields : Fields)
    → is_empty fields ≡ false
    → (k : String) × (v : StoredValue) × (HashMap.get fields k ≡ some v)
unfolding HashMap.get
first_field [] h = absurd (ground arith)
first_field ((k, v) ∷ fields) h = (k, v, ground (arith, eq_iff k k))

-- a session that a sweep leaves has a live field
live_field :
    (now : ℕ) (o : Option Fields) (fields : Fields)
    → retained (sweep now) o ≡ some fields
    → (k : String) × (v : StoredValue) × (HashMap.get fields k ≡ some v) × (is_live now v ≡ true)
unfolding sweep
live_field now none fields h = absurd (ground arith)
live_field now (some before) fields h =
    let kept = HashMap.retain (is_live now) before in
    let same : kept ≡ fields = ground arith in
    let (k, v, found) = first_field fields (ground arith) in
    (k, v, found, ground (arith, get-retain (is_live now) before k))

module _ (b64 : Base64) (dash : DashMap Fields) (clock : Clock) (table : dash.Table)
    (old new : SessionId) where
  abbrev swept : dash.Table
  swept = cleanup_expired b64 dash clock.swept table

  new_absent :
      ((f : String) → visible b64 dash clock.swept table new f ≡ none)
      → dash.get swept (to_string b64 new) ≡ none
  unfolding cleanup_expired
  new_absent free = elim (Option-cases (dash.get swept (to_string b64 new))) [
    | inl e ↦ e
    | inr (fields, e) ↦
        let left : retained (sweep clock.swept) (dash.get table (to_string b64 new)) ≡ some fields =
          ground (arith, dash.get-retain (sweep clock.swept) table (to_string b64 new)) in
        let (k, v, found, live) =
          live_field clock.swept (dash.get table (to_string b64 new)) fields left in
        absurd (
          ground (
            arith,
            free k,
            visible-cleanup_expired b64 dash clock.swept clock.swept table new k (omega arith),
            visible-found b64 dash clock.swept swept new fields k e,
          ))
  ]

  renamed :
      (f₀ : String) (v₀ : StoredValue)
      → visible b64 dash clock.swept table old f₀ ≡ some v₀
      → ((g : String) → visible b64 dash clock.swept table new g ≡ none)
      → (rename_session_id b64 dash clock old new table).0 ≡ ok true
  unfolding rename_session_id
  renamed f₀ v₀ readable free =
      let seen =
        visible-cleanup_expired b64 dash clock.swept clock.swept table old f₀ (omega arith) in
      let absent = new_absent free in
      elim (Option-cases (dash.get swept (to_string b64 old))) [
        | inl e ↦ absurd (ground (arith, seen, visible-missing b64 dash clock.swept swept old f₀ e))
        | inr (fields, e) ↦ ground arith
      ]

  -- Renaming a session with a field that can be read, to an id under which nothing can be read,
  -- succeeds, and from then on the new id shows what the old one showed, and the old one nothing.
  pub rename-moves :
      (t : ℕ) (f₀ : String) (v₀ : StoredValue) (j : SessionId) (f : String)
      → clock.swept ≤ t
      → visible b64 dash clock.swept table old f₀ ≡ some v₀
      → ((g : String) → visible b64 dash clock.swept table new g ≡ none)
      → ((rename_session_id b64 dash clock old new table).0 ≡ ok true)
        × (visible b64 dash t (rename_session_id b64 dash clock old new table).1 j f ≡ (
            if same_session b64 new j
            then visible b64 dash t table old f
            else if same_session b64 old j
            then none
            else visible b64 dash t table j f))
  rename-moves t f₀ v₀ j f order readable free =
      let done = renamed f₀ v₀ readable free in
      (done, ground (arith, visible-rename_session_id b64 dash clock t order table old new j f))

  -- Where something can be read under the new id, renaming reports false, and nothing that can be
  -- read changes.
  pub rename-refused :
      (t : ℕ) (f₀ : String) (v₀ : StoredValue) (j : SessionId) (f : String)
      → clock.swept ≤ t
      → visible b64 dash clock.swept table new f₀ ≡ some v₀
      → ((rename_session_id b64 dash clock old new table).0 ≡ ok false)
        × (visible b64 dash t (rename_session_id b64 dash clock old new table).1 j f
            ≡ visible b64 dash t table j f)
  unfolding rename_session_id
  rename-refused t f₀ v₀ j f order readable =
      let seen =
        visible-cleanup_expired b64 dash clock.swept clock.swept table new f₀ (omega arith) in
      elim (Option-cases (dash.get swept (to_string b64 new))) [
        | inl e ↦ absurd (ground (arith, seen, visible-missing b64 dash clock.swept swept new f₀ e))
        | inr (fields, e) ↦ (
          ground arith,
          ground (arith, visible-cleanup_expired b64 dash clock.swept t table j f order),
        )
      ]
