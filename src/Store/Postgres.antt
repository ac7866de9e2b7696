-- ===== src/Store/Postgres.antt =====
-- src/store/postgres/mod.rs: `PostgresStore`. A method is the SQL that it sends, on the tables of
-- Tables.antt at the transaction's `now()`; all parts of one statement see the tables as they were
-- before it. The connection works: the only error of the database is a violated primary key, whose
-- message is the parameter `duplicate_key`.
pub mod Tables
pub mod Queries
pub mod Traits
pub mod View
pub mod Removal
pub mod Renames
pub mod Expiry
pub mod Linked
pub mod Kept
pub mod Keys
pub mod Keyed
pub mod Reach
pub mod Writes
pub mod Meta
pub mod Upserts
pub mod Erasure
pub mod Contract
pub mod Expires
pub mod Builder
pub mod Built
pub mod Tasks
use ruts.Prelude.{
  ℕ, String, ℤ, pos, gone, ◌==ℤ◌, ltb_ℤ, Option, none, some, Bool, true, false, not, ◌&&◌, List, [],
  ◌∷◌, ltb, leb, if◌then◌else◌, str_eq, length,
}
use ruts.Outcome.{Result, ok, err, panic, Action, and_then, map_some, pure, ◌>>=◌}
use ruts.HashMap
use ruts.HashMap.{HashMap, is_empty, values, map_option}
use ruts.SessionId.{SessionId, Base64, to_string}
use ruts.Store.Codec.{Error, backend, Bytes, Codec, serialize_value, deserialize_value}
use ruts.Store.SessionMap.{SessionMap}
use ruts.Store.Trait.{SessionStore}
use ruts.Store.LayeredTrait.{LayeredColdStore}
use ruts.Store.Postgres.Tables.{
  FieldRow, Rows, Db, rows_of, is_current, plus_secs, deadline, ttl_of, greatest, latest,
  min_option,
}

-- whether the expiry of a removed field decided that of its session
abbrev pub decided : Option ℕ → Option ℕ → Bool
decided none session = true
decided (some e) none = false
decided (some e) (some session) = leb session e

-- `expires_at is null or expires_at > target.new_expiry`, where the latter may be null
abbrev pub outlives : Option ℕ → Option ℕ → Bool
outlives target none = true
outlives none (some e) = false
outlives (some t) (some e) = ltb t e

abbrev pub cap : Option ℕ → FieldRow → FieldRow
cap target r = if outlives target r.expires_at then record r { expires_at = target } else r

-- `on update cascade`
abbrev pub move_rows : String → String → HashMap Rows → HashMap Rows
move_rows old new fields = elim (HashMap.get fields old) [
  | none ↦ fields
  | some rows ↦ HashMap.insert new rows (HashMap.remove old fields)
]

module _ (b64 : Base64) (duplicate_key : String) (now : ℕ) where
  -- `_rename_session_id`: an `update` of the primary key
  unfoldable pub rename_session_id : SessionId → SessionId → Action Db Error Bool
  unfolding to_string HashMap.insert HashMap.remove
  rename_session_id old_session_id new_session_id db =
      let old = to_string b64 old_session_id in
      let new = to_string b64 new_session_id in
      elim (HashMap.get db.sessions old) [
        | none ↦ (ok false, db)
        | some expires_at ↦
            if str_eq old new then (ok true, db) else elim (HashMap.get db.sessions new) [
              | some _ ↦ (err (backend duplicate_key), db)
              | none ↦ (
                ok true,
                record {
                  sessions = HashMap.insert new expires_at (HashMap.remove old db.sessions);
                  fields = move_rows old new db.fields;
                },
              )
            ]
      ]

  -- `session_update` and the last part of `_remove`, for a field that was there
  abbrev pub remove_row : String → String → Option ℕ → Rows → FieldRow → Action Db Error ℤ
  remove_row key field session rows row db =
      let others = HashMap.remove field rows in
      let fields = HashMap.insert key others db.fields in
      if decided row.expires_at session
      then (
        ok (ttl_of now (latest (values others))),
        record {
          sessions = HashMap.insert key (latest (values others)) db.sessions;
          fields = fields;
        },
      )
      else (ok (ttl_of now session), record db { fields = fields })

  -- `_remove`: the number of fields is counted before the field is deleted, and the session goes
  -- where it is at most one, by `on delete cascade` with its fields
  unfoldable pub remove : SessionId → String → Action Db Error ℤ
  unfolding to_string HashMap.insert HashMap.remove latest ttl_of
  remove session_id field db =
      let key = to_string b64 session_id in
      let rows = rows_of (HashMap.get db.fields key) in
      elim (HashMap.get db.sessions key) [
        | none ↦ (ok gone, db)
        | some session ↦
            if leb (length rows) 1
            then (
              ok gone,
              record {
                sessions = HashMap.remove key db.sessions;
                fields = HashMap.remove key db.fields;
              },
            )
            else elim (HashMap.get rows field) [
              | none ↦ (ok (ttl_of now session), db)
              | some row ↦ remove_row key field session rows row db
            ]
      ]

  unfoldable pub delete : SessionId → Action Db Error Bool
  unfolding to_string HashMap.remove
  delete session_id db =
      let key = to_string b64 session_id in
      elim (HashMap.get db.sessions key) [
        | none ↦ (ok false, db)
        | some _ ↦ (
          ok true,
          record {
            sessions = HashMap.remove key db.sessions;
            fields = HashMap.remove key db.fields;
          },
        )
      ]

  -- the expiry that `exsert` leaves in the session's row
  abbrev pub session_expiry : Option (Option ℕ) → ℤ → Option ℕ
  session_expiry none key_ttl_secs = deadline now key_ttl_secs
  session_expiry (some session) key_ttl_secs = greatest session (deadline now key_ttl_secs)

  -- the statement of `_upsert`
  unfoldable pub upsert_row : String → String → FieldRow → ℤ → Db → ℤ × Db
  unfolding HashMap.insert ttl_of
  upsert_row key field row key_ttl_secs db =
      let session = session_expiry (HashMap.get db.sessions key) key_ttl_secs in
      let rows = HashMap.insert field row (rows_of (HashMap.get db.fields key)) in
      (
        ttl_of now session,
        record {
          sessions = HashMap.insert key session db.sessions;
          fields = HashMap.insert key rows db.fields;
        },
      )

  -- the branch of `_upsert` for a field lifetime of 0: in `set_and_rename`, `_remove` is sent for
  -- the new id, and the old session is renamed where a session is left there
  unfoldable pub remove_in_upsert : Option SessionId → SessionId → String → Action Db Error ℤ
  unfolding remove rename_session_id
  remove_in_upsert none session_id field db = remove session_id field db
  remove_in_upsert (some old_session_id) session_id field db =
      (remove session_id field >>= λ ttl s.
      if ttl ==ℤ gone
      then (ok ttl, s)
      else (rename_session_id old_session_id session_id >>= λ _. pure ttl) s)
        db

  -- the two ways to send the statement: after a rename in the same transaction, or alone. An error
  -- of the rename rolls back.
  unfoldable pub send : Option SessionId → SessionId → String → FieldRow → ℤ → Action Db Error ℤ
  unfolding upsert_row rename_session_id to_string
  send none session_id field row key_ttl_secs db =
      let (ttl, db') = upsert_row (to_string b64 session_id) field row key_ttl_secs db in
      (ok ttl, db')
  send (some old_session_id) session_id field row key_ttl_secs db =
      (rename_session_id old_session_id session_id >>= λ _ s.
      let (ttl, db') = upsert_row (to_string b64 session_id) field row key_ttl_secs s in
      (ok ttl, db'))
        db

  module _ {T : Type 0} (codec : Codec T) where
    -- `_upsert`
    unfoldable pub upsert :
        SessionId → String → T → ℤ → ℤ → Option ℤ → Option SessionId → Action Db Error ℤ
    unfolding delete remove_in_upsert send
    upsert session_id field value key_ttl_secs field_ttl_secs hot_cache_ttl old_session_id db =
        if key_ttl_secs ==ℤ pos 0
        then (delete session_id >>= λ _. pure gone) db
        else if field_ttl_secs ==ℤ pos 0
        then remove_in_upsert old_session_id session_id field db
        else elim (serialize_value codec value) [
          | err e ↦ (err e, db)
          | panic ↦ (panic, db)
          | ok value_bytes ↦
              let row : FieldRow = record {
                value = value_bytes;
                expires_at = deadline now field_ttl_secs;
                hot_cache_ttl = min_option hot_cache_ttl (some field_ttl_secs);
              } in
              send old_session_id session_id field row key_ttl_secs db
        ]
