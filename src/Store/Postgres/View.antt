-- ===== src/Store/Postgres/View.antt =====
-- src/store/postgres/mod.rs, as a reader sees it: the row under a session and a field that can be
-- read at an instant.
use ruts.Prelude.{ℕ, String, ◌≡◌, Option, none, some, true, arith, if◌then◌else◌, eq_iff}
use ruts.HashMap
use ruts.HashMap.{
  HashMap, values, is_empty, keep_if, map_option, get-retain, get-retain_keys, get-map_values,
  get-remove, get-insert,
}
use ruts.SessionId.{SessionId, Base64, to_string, same_session}
use ruts.Store.Postgres.Queries.{current, current_rows}
use ruts.Store.Postgres.Tables.{FieldRow, Rows, Db, rows_of, is_current}

module _ (b64 : Base64) where
  -- the row that can be read at an instant
  unfoldable pub shown : ℕ → Db → SessionId → String → Option FieldRow
  shown t db id field = HashMap.get (current_rows b64 t id db) field

  -- what `shown` reads of the tables
  abbrev pub seen : ℕ → Option (Option ℕ) → Option Rows → String → Option FieldRow
  seen t none rows field = none
  seen t (some session) rows field =
      if is_current t session then keep_if (current t) (HashMap.get (rows_of rows) field) else none

  pub shown_lem :
      (t : ℕ) (db : Db) (id : SessionId) (field : String)
      → shown t db id field
        ≡ seen t
            (HashMap.get db.sessions (to_string b64 id))
            (HashMap.get db.fields (to_string b64 id))
            field
  unfolding shown current_rows HashMap.get
  shown_lem t db id field =
      ground
        (arith, get-retain (current t) (rows_of (HashMap.get db.fields (to_string b64 id))) field)

  -- sessions with one key look alike
  pub shown-same :
      (t : ℕ) (db : Db) (id j : SessionId) (field : String)
      → same_session b64 id j ≡ true
      → shown t db j field ≡ shown t db id field
  shown-same t db id j field h = ground (
    arith,
    shown_lem t db id field,
    shown_lem t db j field,
    eq_iff (to_string b64 id) (to_string b64 j),
  )

  -- the session after its rows, and perhaps its expiry, are written
  pub shown-written :
      (t : ℕ) (db : Db) (id : SessionId) (session : Option ℕ) (rows : Rows) (field : String)
      → shown t
          (record {
            sessions = HashMap.insert (to_string b64 id) session db.sessions;
            fields = HashMap.insert (to_string b64 id) rows db.fields;
          })
          id
          field
        ≡ seen t (some session) (some rows) field
  shown-written t db id session rows field =
      let key = to_string b64 id in
      rw shown_lem (
        ground (
          arith,
          get-insert db.sessions key key session,
          get-insert db.fields key key rows,
          eq_iff key key,
        ))

  pub shown-rows :
      (t : ℕ) (db : Db) (id : SessionId) (rows : Rows) (field : String)
      → shown t (record db { fields = HashMap.insert (to_string b64 id) rows db.fields }) id field
        ≡ seen t (HashMap.get db.sessions (to_string b64 id)) (some rows) field
  shown-rows t db id rows field =
      let key = to_string b64 id in
      rw shown_lem (ground (arith, get-insert db.fields key key rows, eq_iff key key))
