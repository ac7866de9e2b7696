-- ===== src/Store/Postgres/Queries.antt =====
-- src/store/postgres/mod.rs: the queries that read, `expire`, and the background task of `build`.
use ruts.Prelude.{
  ℕ, String, ℤ, pos, persistent, ◌==ℤ◌, ltb_ℤ, Option, none, some, Bool, true, false, not, [], ltb,
  if◌then◌else◌,
}
use ruts.Outcome.{ok, Action, map_some}
use ruts.HashMap
use ruts.HashMap.{HashMap, is_empty, keep_if, map_option}
use ruts.SessionId.{SessionId, Base64, to_string}
use ruts.Store.Codec.{Error, Codec, deserialize_value}
use ruts.Store.SessionMap.{SessionMap}
use ruts.Store.Postgres.{cap, delete}
use ruts.Store.Postgres.Tables.{
  FieldRow, Rows, Db, rows_of, is_current, plus_secs, ttl_of, min_option,
}

abbrev pub is_some {ℓ} : {A : Type ℓ} → Option A → Bool
is_some none = false
is_some (some a) = true

-- `expires_at is not null and expires_at < now()` does not hold
abbrev pub not_over : ℕ → Option ℕ → Bool
not_over now none = true
not_over now (some e) = not (ltb e now)

abbrev pub current : ℕ → FieldRow → Bool
current now r = is_current now r.expires_at

-- the lifetime in the hot store that `get_all_with_meta` reports for a row, by the loop's body; none
-- where the map gets no entry
unfoldable pub meta_of : ℕ → FieldRow → Option (Option ℤ)
unfolding ttl_of
meta_of now r =
    let ttl = ttl_of now r.expires_at in
    let hot =
      if ltb_ℤ persistent ttl
      then min_option (elim r.hot_cache_ttl [ none ↦ some ttl | some h ↦ some h ]) (some ttl)
      else r.hot_cache_ttl in
    if ltb_ℤ (pos 0) ttl then some hot else none

-- a tick of the background task: expired sessions, with their fields, and then expired fields
unfoldable pub cleanup : ℕ → Db → Db
unfolding HashMap.retain HashMap.retain_keys HashMap.map_values HashMap.get
cleanup now db =
    let sessions = HashMap.retain (not_over now) db.sessions in
    let cascaded = HashMap.retain_keys (λ key. is_some (HashMap.get sessions key)) db.fields in
    record {
      sessions = sessions;
      fields =
          HashMap.map_values (HashMap.retain (λ (r : FieldRow). not_over now r.expires_at))
            cascaded;
    }

module _ (b64 : Base64) (now : ℕ) where
  -- the rows of `f join e` for a session, where both are current
  unfoldable pub current_rows : SessionId → Db → Rows
  unfolding to_string HashMap.retain HashMap.get
  current_rows session_id db =
      let key = to_string b64 session_id in
      elim (HashMap.get db.sessions key) [
        | none ↦ []
        | some session ↦
            if is_current now session
            then HashMap.retain (current now) (rows_of (HashMap.get db.fields key))
            else []
      ]

  unfoldable pub get : {T : Type 0} → Codec T → SessionId → String → Action Db Error (Option T)
  unfolding current_rows
  get codec session_id field db = elim (HashMap.get (current_rows session_id db) field) [
    | none ↦ (ok none, db)
    | some row ↦ (map_some (deserialize_value codec row.value), db)
  ]

  unfoldable pub get_all : SessionId → Action Db Error (Option SessionMap)
  unfolding current_rows HashMap.map_values
  get_all session_id db =
      let rows = current_rows session_id db in
      if is_empty rows
      then (ok none, db)
      else (ok (some (record { fields = HashMap.map_values (λ (r : FieldRow). r.value) rows })), db)

  unfoldable pub get_all_with_meta :
      SessionId → Action Db Error (Option (SessionMap × HashMap (Option ℤ)))
  unfolding current_rows meta_of HashMap.filter_map_values
  get_all_with_meta session_id db =
      let rows = current_rows session_id db in
      if is_empty rows then (ok none, db) else (
        ok (
            some (
              record { fields = HashMap.map_values (λ (r : FieldRow). r.value) rows },
              HashMap.filter_map_values (meta_of now) rows,
            )),
        db,
      )

  -- the statement of `expire`
  unfoldable pub expire_rows : String → ℤ → Action Db Error Bool
  unfolding HashMap.insert HashMap.map_values
  expire_rows key ttl_secs db =
      let target = if ltb_ℤ ttl_secs (pos 0) then none else some (plus_secs now ttl_secs) in
      elim (HashMap.get db.sessions key) [
        | none ↦ (ok false, db)
        | some session ↦
            if is_current now session
            then (
              ok true,
              record {
                sessions = HashMap.insert key target db.sessions;
                fields = elim (HashMap.get db.fields key) [
                  | none ↦ db.fields
                  | some rows ↦ HashMap.insert key (HashMap.map_values (cap target) rows) db.fields
                ];
              },
            )
            else (ok false, db)
      ]

  unfoldable pub expire : (duplicate_key : String) → SessionId → ℤ → Action Db Error Bool
  unfolding expire_rows to_string delete
  expire duplicate_key session_id ttl_secs db =
      if ttl_secs ==ℤ pos 0
      then delete b64 duplicate_key now session_id db
      else expire_rows (to_string b64 session_id) ttl_secs db
