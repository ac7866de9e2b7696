-- ===== src/Store/Postgres/Renames.antt =====
-- src/store/postgres/mod.rs: `set_and_rename` and `rename_session_id`.
use ruts.Prelude.{
  Bool, true, false, ℕ, String, ◌≡◌, ◌≢◌, ◌⊎◌, Option, none, some, true, false, ℤ, pos, gone, arith,
  Option-cases, inl, inr, if◌then◌else◌, str_eq, eq_iff,
}
use ruts.Outcome.{ok, err}
use ruts.HashMap
use ruts.HashMap.{HashMap, get-remove, get-insert}
use ruts.SessionId.{SessionId, Base64, to_string, same_session}
use ruts.Store.Codec.{Codec, Bytes, backend, serialize_value}
use ruts.Store.Postgres.{rename_session_id, move_rows}
use ruts.Store.Postgres.Tables.{Rows, Db}
use ruts.Store.Postgres.View.{shown, shown_lem}
use ruts.Store.Postgres.Traits.{set_and_rename}

-- rows without a session
abbrev pub orphaned : Option (Option ℕ) → Option Rows → Bool
orphaned session none = false
orphaned none (some rows) = true
orphaned (some e) (some rows) = false

-- A field's rows belong to a session, as the foreign key demands.
abbrev pub IsLinked : Db → Type 0
IsLinked db =
    (key : String) → orphaned (HashMap.get db.sessions key) (HashMap.get db.fields key) ≡ false

pub get-move_rows :
    (old new : String) (fields : HashMap Rows) (j : String)
    → HashMap.get (move_rows old new fields) j ≡ (elim (HashMap.get fields old) [
      | none ↦ HashMap.get fields j
      | some rows ↦
          if str_eq new j then some rows else if str_eq old j then none else HashMap.get fields j
    ])
get-move_rows old new fields j = elim (Option-cases (HashMap.get fields old)) [
  | inl e ↦ ground arith
  | inr (rows, e) ↦
      ground (arith, get-insert (HashMap.remove old fields) new j rows, get-remove fields old j)
]

module _ (b64 : Base64) (duplicate_key : String) (now : ℕ) (db : Db) (old new : SessionId) where
  -- In tables that keep the foreign key, renaming an existing session to an id that no session
  -- has succeeds and moves what can be read, at every instant, and leaves the other sessions
  -- alone.
  pub shown-rename_session_id :
      (t : ℕ) (j : SessionId) (f : String) (session : Option ℕ)
      → IsLinked db
      → HashMap.get db.sessions (to_string b64 old) ≡ some session
      → HashMap.get db.sessions (to_string b64 new) ≡ none
      → ((rename_session_id b64 duplicate_key now old new db).0 ≡ ok true)
        × (shown b64 t (rename_session_id b64 duplicate_key now old new db).1 j f ≡ (
            if same_session b64 new j
            then shown b64 t db old f
            else if same_session b64 old j
            then none
            else shown b64 t db j f))
  unfolding rename_session_id
  shown-rename_session_id t j f session linked here free =
      let o = to_string b64 old in
      let n = to_string b64 new in
      let k = to_string b64 j in
      let moved = (rename_session_id b64 duplicate_key now old new db).1 in
      let differ : str_eq o n ≡ false = ground (arith, eq_iff o n) in
      let sessions = get-insert (HashMap.remove o db.sessions) n k session in
      (
        ground arith,
        ground (
          arith,
          shown_lem b64 t moved j f,
          shown_lem b64 t db old f,
          shown_lem b64 t db j f,
          sessions,
          get-remove db.sessions o k,
          get-move_rows o n db.fields k,
          linked n,
          eq_iff n k,
          eq_iff o k,
        ),
      )

  -- Where two different ids both have sessions, `set_and_rename` from one to the other, with
  -- lifetimes other than 0 and a value that is encoded, fails and changes nothing: no session
  -- takes over another one's id.
  pub set_and_rename-collision :
      {T : Type 0} (codec : Codec T) (field : String) (value : T) (key_ttl field_ttl : ℤ)
      (hot : Option ℤ) (bytes : Bytes) (a b : Option ℕ)
      → key_ttl ≢ pos 0
      → field_ttl ≢ pos 0
      → serialize_value codec value ≡ ok bytes
      → same_session b64 old new ≡ false
      → HashMap.get db.sessions (to_string b64 old) ≡ some a
      → HashMap.get db.sessions (to_string b64 new) ≡ some b
      → set_and_rename b64 duplicate_key now codec old new field value key_ttl field_ttl hot db
        ≡ (err (backend duplicate_key), db)
  unfolding set_and_rename
  set_and_rename-collision codec field value key_ttl field_ttl hot bytes a b k l encoded distinct
        here taken =
      ground arith

  -- With a lifetime of 0 for the session or for the field, and a new id that no session has,
  -- `set_and_rename` does nothing at all and reports -2: the old session stays, with the field, under
  -- the old id.
  pub set_and_rename-zero :
      {T : Type 0} (codec : Codec T) (field : String) (value : T) (key_ttl field_ttl : ℤ)
      (hot : Option ℤ)
      → (key_ttl ≡ pos 0) ⊎ (field_ttl ≡ pos 0)
      → HashMap.get db.sessions (to_string b64 new) ≡ none
      → set_and_rename b64 duplicate_key now codec old new field value key_ttl field_ttl hot db
        ≡ (ok gone, db)
  unfolding set_and_rename
  set_and_rename-zero codec field value key_ttl field_ttl hot zeros free = ground arith
