-- ===== src/Store/Postgres/Kept.antt =====
-- src/store/postgres/mod.rs: what every statement keeps true of the tables, every call of the store
-- does.
use ruts.Prelude.{ℕ, String, Option, none, some, ℤ, pos, gone, ◌==ℤ◌, Bool-cases, inl, inr}
use ruts.Outcome.{Result, ok, err, panic, Action, continue, pure, ◌>>=◌}
use ruts.SessionId.{SessionId, Base64, to_string}
use ruts.Store.Codec.{Error, Codec, serialize-cases}
use ruts.Store.Postgres.{
  rename_session_id, remove, delete, upsert_row, send, remove_in_upsert, upsert,
}
use ruts.Store.Postgres.Queries.{expire, expire_rows, cleanup}
use ruts.Store.Postgres.Tables.{FieldRow, Db}

-- a predicate that each statement keeps
pub record Keeps (b64 : Base64) (duplicate_key : String) (P : Db → Type 0) : Type 0 where
  pub deleting :
      (now : ℕ) (db : Db) (id : SessionId) → P db → P (delete b64 duplicate_key now id db).1
  pub renaming :
      (now : ℕ) (db : Db) (old new : SessionId)
      → P db
      → P (rename_session_id b64 duplicate_key now old new db).1
  pub removing :
      (now : ℕ) (db : Db) (id : SessionId) (field : String)
      → P db
      → P (remove b64 duplicate_key now id field db).1
  pub writing :
      (now : ℕ) (db : Db) (key field : String) (row : FieldRow) (ttl : ℤ)
      → P db
      → P (upsert_row b64 duplicate_key now key field row ttl db).1
  pub stretching :
      (now : ℕ) (db : Db) (key : String) (ttl : ℤ) → P db → P (expire_rows b64 now key ttl db).1
  pub ticking : (now : ℕ) (db : Db) → P db → P (cleanup now db)

-- after `?` on a step that keeps it
bind-kept :
    (P : Db → Type 0) {A B : Type 0} (r : Result Error A) (f : A → Action Db Error B) (db : Db)
    → P db
    → ((a : A) → P (f a db).1)
    → P (continue r f db).1
bind-kept P (ok a) f db h k = k a
bind-kept P (err e) f db h k = h
bind-kept P panic f db h k = h

module _ (b64 : Base64) (duplicate_key : String) (P : Db → Type 0)
    (keeps : Keeps b64 duplicate_key P) (now : ℕ) where
  send-kept :
      (old : Option SessionId) (id : SessionId) (field : String) (row : FieldRow) (ttl : ℤ)
      (db : Db)
      → P db
      → P (send b64 duplicate_key now old id field row ttl db).1
  send-kept none id field row ttl db h =
      unfold send in keeps.writing now db (to_string b64 id) field row ttl h
  send-kept (some old) id field row ttl db h =
      let (r, s) = rename_session_id b64 duplicate_key now old id db in
      let moved = keeps.renaming now db old id h in
      unfold send in
      bind-kept P r _ s moved (λ _. keeps.writing now s (to_string b64 id) field row ttl moved)

  finish_rename :
      (old id : SessionId) (ttl : ℤ) (db : Db)
      → P db
      → P ((rename_session_id b64 duplicate_key now old id >>= λ _. pure ttl) db).1
  finish_rename old id ttl db h =
      let (r, s) = rename_session_id b64 duplicate_key now old id db in
      let moved = keeps.renaming now db old id h in bind-kept P r _ s moved (λ _. moved)

  remove_in_upsert-kept :
      (old : Option SessionId) (id : SessionId) (field : String) (db : Db)
      → P db
      → P (remove_in_upsert b64 duplicate_key now old id field db).1
  remove_in_upsert-kept none id field db h =
      unfold remove_in_upsert in keeps.removing now db id field h
  remove_in_upsert-kept (some old) id field db h =
      let (r, s) = remove b64 duplicate_key now id field db in
      let removed = keeps.removing now db id field h in
      unfold remove_in_upsert in
      bind-kept P r _ s removed (λ ttl. elim (Bool-cases (ttl ==ℤ gone)) [
        | inl e ↦ rw e removed
        | inr e ↦ rw e (finish_rename old id ttl s removed)
      ])

  pub upsert-kept :
      {T : Type 0} (codec : Codec T) (id : SessionId) (field : String) (value : T)
      (key_ttl field_ttl : ℤ) (hot : Option ℤ) (old : Option SessionId) (db : Db)
      → P db
      → P (upsert b64 duplicate_key now codec id field value key_ttl field_ttl hot old db).1
  unfolding upsert
  upsert-kept codec id field value key_ttl field_ttl hot old db h =
      let (r, s) = delete b64 duplicate_key now id db in
      let deleted = keeps.deleting now db id h in
      elim (Bool-cases (key_ttl ==ℤ pos 0)) [
        | inl k ↦ rw k (bind-kept P r _ s deleted (λ _. deleted))
        | inr k ↦ rw k (elim (Bool-cases (field_ttl ==ℤ pos 0)) [
          | inl l ↦ rw l (remove_in_upsert-kept old id field db h)
          | inr l ↦ rw l (elim (serialize-cases codec value) [
            | inl (bytes, e) ↦ rw e (send-kept old id field _ key_ttl db h)
            | inr (inl (x, e)) ↦ rw e h
            | inr (inr e) ↦ rw e h
          ])
        ])
      ]

  pub expire-kept :
      (id : SessionId) (ttl : ℤ) (db : Db) → P db → P (expire b64 now duplicate_key id ttl db).1
  unfolding expire
  expire-kept id ttl db h = elim (Bool-cases (ttl ==ℤ pos 0)) [
    | inl e ↦ rw e (keeps.deleting now db id h)
    | inr e ↦ rw e (keeps.stretching now db (to_string b64 id) ttl h)
  ]
