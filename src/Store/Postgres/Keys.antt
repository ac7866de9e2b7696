-- ===== src/Store/Postgres/Keys.antt =====
-- src/store/postgres/mod.rs: the primary keys of the two tables, which every statement keeps.
use ruts.Prelude.{
  ◌⊎◌, ℕ, String, ◌≡◌, refl, Option, none, some, Bool, ℤ, Bool-cases, Option-cases, inl, inr, arith,
  str_eq,
}
use mathlib.Core.Path.{subst}
use ruts.HashMap
use ruts.HashMap.{
  HashMap, map_option, get-remove, get-insert, get-retain_keys, get-map_values, values,
}
use ruts.HashMap.Keys.{IsKeyed, remove-IsKeyed, insert-IsKeyed}
use ruts.SessionId.{SessionId, Base64, to_string}
use ruts.Store.Postgres.{session_expiry, rename_session_id, delete, upsert_row, move_rows}
use ruts.Store.Postgres.Tables.{FieldRow, Rows, Db, rows_of}

-- the rows of each session are of distinct fields
abbrev pub EachKeyed : HashMap Rows → Type 0
EachKeyed fields = (key : String) (rows : Rows) → HashMap.get fields key ≡ some rows → IsKeyed rows

-- session_id is a key of the one table, and (fk_session_id, field) of the other
pub record HasKeys (db : Db) : Type 0 where
  pub sessions : IsKeyed db.sessions
  pub fields : IsKeyed db.fields
  pub rows : EachKeyed db.fields

rows_of-IsKeyed :
    (o : Option Rows) → ((rows : Rows) → o ≡ some rows → IsKeyed rows) → IsKeyed (rows_of o)
rows_of-IsKeyed none h = tt
rows_of-IsKeyed (some rows) h = h rows refl

module _ (fields : HashMap Rows) (each : EachKeyed fields) where
  pub insert-EachKeyed :
      (key : String) (rows : Rows) → IsKeyed rows → EachKeyed (HashMap.insert key rows fields)
  insert-EachKeyed key rows h k r e = elim (Bool-cases (str_eq key k)) [
    | inl same ↦
        (let e' : rows ≡ r = ground (arith, get-insert fields key k rows) in
          subst (λ m. IsKeyed m) e' h)
    | inr other ↦ each k r (ground (arith, get-insert fields key k rows))
  ]

  remove-EachKeyed : (key : String) → EachKeyed (HashMap.remove key fields)
  remove-EachKeyed key k r e = each k r (ground (arith, get-remove fields key k))

  pub retain_keys-EachKeyed : (p : String → Bool) → EachKeyed (HashMap.retain_keys p fields)
  retain_keys-EachKeyed p k r e = each k r (ground (arith, get-retain_keys p fields k))

  pub map_values-EachKeyed :
      (f : Rows → Rows)
      → ((rows : Rows) → IsKeyed rows → IsKeyed (f rows))
      → EachKeyed (HashMap.map_values f fields)
  map_values-EachKeyed f keeps k r e = elim (Option-cases (HashMap.get fields k)) [
    | inl absent ↦ absurd (ground (arith, get-map_values f fields k))
    | inr (rows, here) ↦
        (let e' : f rows ≡ r = ground (arith, get-map_values f fields k) in
          subst (λ m. IsKeyed m) e' (keeps rows (each k rows here)))
  ]

module _ (b64 : Base64) (duplicate_key : String) (now : ℕ) (db : Db) (h : HasKeys db) where
  pub here-IsKeyed : (key : String) → IsKeyed (rows_of (HashMap.get db.fields key))
  here-IsKeyed key = rows_of-IsKeyed (HashMap.get db.fields key) (h.rows key)

  -- the tables without a session and its fields
  abbrev pub dropped : String → Db
  dropped key = record {
    sessions = HashMap.remove key db.sessions;
    fields = HashMap.remove key db.fields;
  }

  pub dropped-HasKeys : (key : String) → HasKeys (dropped key)
  dropped-HasKeys key = record {
    sessions = remove-IsKeyed key db.sessions h.sessions;
    fields = remove-IsKeyed key db.fields h.fields;
    rows = remove-EachKeyed db.fields h.rows key;
  }

  pub delete-HasKeys : (id : SessionId) → HasKeys (delete b64 duplicate_key now id db).1
  delete-HasKeys id =
      let key = to_string b64 id in
      elim (Option-cases (HashMap.get db.sessions key)) [
        | inl e ↦
            let same : (delete b64 duplicate_key now id db).1 ≡ db =
              unfold delete in ground arith in
            rw same h
        | inr (session, e) ↦
            let same : (delete b64 duplicate_key now id db).1 ≡ dropped key =
              unfold delete in ground arith in
            rw same (dropped-HasKeys key)
      ]

  pub upsert_row-HasKeys :
      (key field : String) (row : FieldRow) (ttl : ℤ)
      → HasKeys (upsert_row b64 duplicate_key now key field row ttl db).1
  unfolding upsert_row
  upsert_row-HasKeys key field row ttl =
      let rows = HashMap.insert field row (rows_of (HashMap.get db.fields key)) in
      let session = session_expiry b64 duplicate_key now (HashMap.get db.sessions key) ttl in
      record {
        sessions = insert-IsKeyed key session db.sessions h.sessions;
        fields = insert-IsKeyed key rows db.fields h.fields;
        rows =
            insert-EachKeyed db.fields h.rows key rows
              (insert-IsKeyed field row _ (here-IsKeyed key));
      }

  move_rows-IsKeyed :
      (old new : String)
      → IsKeyed (move_rows old new db.fields) × EachKeyed (move_rows old new db.fields)
  move_rows-IsKeyed old new = elim (Option-cases (HashMap.get db.fields old)) [
    | inl e ↦
        let same : move_rows old new db.fields ≡ db.fields = ground arith in
        rw same (h.fields, h.rows)
    | inr (rows, e) ↦
        let moved = HashMap.remove old db.fields in
        let same : move_rows old new db.fields ≡ HashMap.insert new rows moved = ground arith in
        rw same (
          insert-IsKeyed new rows moved (remove-IsKeyed old db.fields h.fields),
          insert-EachKeyed moved (remove-EachKeyed db.fields h.rows old) new rows
              (h.rows old rows e),
        )
  ]

  -- the tables behind a rename that is carried out
  abbrev renamed : String → String → Option ℕ → Db
  renamed old new session = record {
    sessions = HashMap.insert new session (HashMap.remove old db.sessions);
    fields = move_rows old new db.fields;
  }

  rename-cases :
      (old new : SessionId)
      → ((rename_session_id b64 duplicate_key now old new db).1 ≡ db)
        ⊎ ((session : Option ℕ) × ((rename_session_id b64 duplicate_key now old new db).1
              ≡ renamed (to_string b64 old) (to_string b64 new) session))
  unfolding rename_session_id
  rename-cases old new =
      let o = to_string b64 old in
      let n = to_string b64 new in
      elim (Option-cases (HashMap.get db.sessions o)) [
        | inl e ↦ inl (ground arith)
        | inr (session, e) ↦ elim (Bool-cases (str_eq o n)) [
          | inl same ↦ inl (ground arith)
          | inr other ↦ elim (Option-cases (HashMap.get db.sessions n)) [
            | inr (taken, t) ↦ inl (ground arith)
            | inl free ↦ inr (session, ground arith)
          ]
        ]
      ]

  pub rename-HasKeys :
      (old new : SessionId) → HasKeys (rename_session_id b64 duplicate_key now old new db).1
  rename-HasKeys old new =
      let o = to_string b64 old in
      let n = to_string b64 new in
      let (fields, rows) = move_rows-IsKeyed o n in
      elim (rename-cases old new) [
        | inl same ↦ rw same h
        | inr (session, same) ↦ rw same (record {
          sessions = insert-IsKeyed n session _ (remove-IsKeyed o db.sessions h.sessions);
          fields = fields;
          rows = rows;
        })
      ]
