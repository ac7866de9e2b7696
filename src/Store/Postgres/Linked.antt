-- ===== src/Store/Postgres/Linked.antt =====
-- src/store/postgres/mod.rs: the foreign key of the table of fields, which every statement keeps.
use ruts.Prelude.{
  ℕ, String, none, some, ℤ, ltb_ℤ, pos, arith, Option-cases, inl, inr, if◌then◌else◌, eq_iff,
}
use ruts.HashMap
use ruts.HashMap.{
  HashMap, values, keep_if, map_option, get-remove, get-insert, get-retain, get-retain_keys,
  get-map_values,
}
use ruts.SessionId.{SessionId, Base64, to_string}
use ruts.Store.Postgres.{session_expiry, rename_session_id, remove, delete, upsert_row, cap}
use ruts.Store.Postgres.Kept.{Keeps}
use ruts.Store.Postgres.Queries.{expire_rows, cleanup, not_over, is_some}
use ruts.Store.Postgres.Tables.{FieldRow, Rows, Db, rows_of, latest, plus_secs}
use ruts.Store.Postgres.Renames.{IsLinked, get-move_rows}

module _ (b64 : Base64) (duplicate_key : String) (now : ℕ) (db : Db) (linked : IsLinked db) where
  pub delete-IsLinked : (id : SessionId) → IsLinked (delete b64 duplicate_key now id db).1
  unfolding delete
  delete-IsLinked id k =
      let key = to_string b64 id in
      ground (arith, linked k, get-remove db.sessions key k, get-remove db.fields key k)

  pub rename-IsLinked :
      (old new : SessionId) → IsLinked (rename_session_id b64 duplicate_key now old new db).1
  unfolding rename_session_id
  rename-IsLinked old new k =
      let o = to_string b64 old in
      let n = to_string b64 new in
      elim (Option-cases (HashMap.get db.sessions o)) [
        | inl e ↦ ground (arith, linked k)
        | inr (session, e) ↦ ground (
          arith,
          linked k,
          linked o,
          get-move_rows o n db.fields k,
          get-insert (HashMap.remove o db.sessions) n k session,
          get-remove db.sessions o k,
          eq_iff o k,
          eq_iff n k,
        )
      ]

  pub remove-IsLinked :
      (id : SessionId) (field : String) → IsLinked (remove b64 duplicate_key now id field db).1
  unfolding remove
  remove-IsLinked id field k =
      let key = to_string b64 id in
      let rows = rows_of (HashMap.get db.fields key) in
      let others = HashMap.remove field rows in
      ground (
        arith,
        linked k,
        get-remove db.sessions key k,
        get-remove db.fields key k,
        get-insert db.sessions key k (latest (values others)),
        get-insert db.fields key k others,
        eq_iff key k,
      )

  pub upsert_row-IsLinked :
      (key field : String) (row : FieldRow) (ttl : ℤ)
      → IsLinked (upsert_row b64 duplicate_key now key field row ttl db).1
  unfolding upsert_row
  upsert_row-IsLinked key field row ttl k =
      let rows = HashMap.insert field row (rows_of (HashMap.get db.fields key)) in
      let session = session_expiry b64 duplicate_key now (HashMap.get db.sessions key) ttl in
      ground
        (arith, linked k, get-insert db.sessions key k session, get-insert db.fields key k rows)

module _ (b64 : Base64) (duplicate_key : String) (now : ℕ) (db : Db) (linked : IsLinked db) where
  expire_rows-IsLinked : (key : String) (ttl : ℤ) → IsLinked (expire_rows b64 now key ttl db).1
  unfolding expire_rows
  expire_rows-IsLinked key ttl k =
      let target = if ltb_ℤ ttl (pos 0) then none else some (plus_secs now ttl) in
      elim (Option-cases (HashMap.get db.fields key)) [
        | inl none_there ↦ ground (arith, linked k, get-insert db.sessions key k target)
        | inr (rows, e) ↦ ground (
          arith,
          linked k,
          get-insert db.sessions key k target,
          get-insert db.fields key k (HashMap.map_values (cap target) rows),
        )
      ]

  cleanup-IsLinked : IsLinked (cleanup now db)
  unfolding cleanup
  cleanup-IsLinked k =
      let sessions = HashMap.retain (not_over now) db.sessions in
      let held = λ (key : String). is_some (HashMap.get sessions key) in
      let keep : Rows → Rows = HashMap.retain (λ (r : FieldRow). not_over now r.expires_at) in
      ground (
        arith,
        get-map_values keep (HashMap.retain_keys held db.fields) k,
        get-retain_keys held db.fields k,
      )

module _ (b64 : Base64) (duplicate_key : String) where
  pub links-Keeps : Keeps b64 duplicate_key IsLinked
  links-Keeps = record {
    deleting = λ now db id h. delete-IsLinked b64 duplicate_key now db h id;
    renaming = λ now db old new h. rename-IsLinked b64 duplicate_key now db h old new;
    removing = λ now db id field h. remove-IsLinked b64 duplicate_key now db h id field;
    writing = λ now db key field row ttl h.
        upsert_row-IsLinked b64 duplicate_key now db h key field row ttl;
    stretching = λ now db key ttl h. expire_rows-IsLinked b64 duplicate_key now db h key ttl;
    ticking = λ now db h. cleanup-IsLinked b64 duplicate_key now db h;
  }
