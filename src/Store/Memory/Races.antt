-- ===== src/Store/Memory/Races.antt =====
-- src/store/memory/mod.rs: `remove` among the accesses of other threads.
use ruts.Prelude.{
  ℕ, String, ◌≡◌, true, false, none, some, List, [], ◌∷◌, arith, str_eq, eq_iff, if◌then◌else◌,
}
use ruts.HashMap
use ruts.HashMap.{HashMap, keep_if, is_empty, get-remove, get-insert, get-of_is_empty}
use ruts.DashMap.{DashMap}
use ruts.SessionId.{SessionId, Base64, to_string}
use ruts.Store.Memory.Expiry.{StoredValue, Fields, Clock, is_live, or_default}
use ruts.Store.Memory.{cleanup_expired, remove}
use ruts.Store.Memory.View.{visible, visible-insert, visible-drop}
use ruts.Store.Memory.Interleaving.{
  Access, sweeping, putting, taking, dropping, access, run, visible-putting,
}

module _ (b64 : Base64) (dash : DashMap Fields) where
  -- what a `remove` does behind its access to the field
  abbrev pub finishing : SessionId → String → Fields → List Access
  finishing id field fields =
      if is_empty (HashMap.remove field fields) then dropping id ∷ [] else []

  -- The accesses of a `remove` alone, of a field of a session that is there after its sweep: it sweeps,
  -- takes the field, and drops the session if that was its last field.
  pub remove-run :
      (clock : Clock) (id : SessionId) (field : String) (fields : Fields) (table : dash.Table)
      (t : ℕ) (j : SessionId) (f : String)
      → dash.get (cleanup_expired b64 dash clock.swept table) (to_string b64 id) ≡ some fields
      → visible b64 dash t (remove b64 dash clock id field table).1 j f
        ≡ visible b64 dash t
            (run b64 dash
              (sweeping clock.swept ∷ taking id field ∷ finishing id field fields)
              table)
            j
            f
  unfolding remove run
  remove-run clock id field fields table t j f here =
      let swept = cleanup_expired b64 dash clock.swept table in
      let left = HashMap.remove field fields in
      let taken = dash.insert (to_string b64 id) left swept in
      ground (
        arith,
        visible-drop b64 dash t id swept j f,
        visible-drop b64 dash t id taken j f,
        visible-insert b64 dash t id left swept j f,
      )

  -- A `remove` of the last field of a session loses the value that a `set` of another thread puts in
  -- another field between its two accesses: it cannot be read, though with the `remove` wholly before
  -- or wholly after the put it can.
  pub remove-loses-set :
      (id : SessionId) (field other : String) (v : StoredValue) (fields : Fields)
      (table : dash.Table) (t : ℕ)
      → dash.get table (to_string b64 id) ≡ some fields
      → is_empty (HashMap.remove field fields) ≡ true
      → str_eq field other ≡ false
      → is_live t v ≡ true
      → (visible b64 dash t
            (run b64 dash (taking id field ∷ putting id other v ∷ finishing id field fields) table)
            id
            other
          ≡ none)
        × (visible b64 dash t
              (run b64 dash (taking id field ∷ dropping id ∷ putting id other v ∷ []) table)
              id
              other
            ≡ some v)
        × (visible b64 dash t
              (run b64 dash
                (putting id other v
                  ∷ taking id field
                  ∷ finishing id field (HashMap.insert other v fields))
                table)
              id
              other
            ≡ some v)
  unfolding run
  remove-loses-set id field other v fields table t here last distinct live =
      let key = to_string b64 id in
      let taken = access b64 dash (taking id field) table in
      let put = access b64 dash (putting id other v) table in
      let both = HashMap.insert other v fields in
      (
        ground (
          arith,
          visible-drop b64 dash t id (access b64 dash (putting id other v) taken) id other,
          eq_iff key key,
        ),
        ground (
          arith,
          visible-putting b64 dash t id other v (access b64 dash (dropping id) taken) id other,
          eq_iff key key,
          eq_iff other other,
        ),
        unfold or_default in
            ground (
              arith,
              eq_iff field other,
              eq_iff other field,
              eq_iff key key,
              eq_iff other other,
              dash.get-insert table key key both,
              visible-insert b64 dash t id (HashMap.remove field both) put id other,
              get-remove both field other,
              get-insert fields other other v,
            ),
      )
