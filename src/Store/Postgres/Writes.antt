-- ===== src/Store/Postgres/Writes.antt =====
-- src/store/postgres/mod.rs: `_upsert`, by the rows that can be read after it at an instant `t`.
use ruts.Prelude.{
  ℕ, String, ◌≡◌, ◌≢◌, refl, Option, none, some, true, false, ℤ, pos, arith, Bool-cases, inl, inr,
  if◌then◌else◌, str_eq, eq_iff,
}
use ruts.Outcome.{ok}
use ruts.HashMap
use ruts.HashMap.{HashMap, keep_if, get-remove, get-insert}
use ruts.SessionId.{SessionId, Base64, to_string, same_session}
use ruts.Store.Codec.{Codec, Bytes, serialize_value}
use ruts.Store.Postgres.{session_expiry, upsert_row}
use ruts.Store.Postgres.Queries.{current}
use ruts.Store.Postgres.Tables.{FieldRow, Db, rows_of, is_current, deadline, min_option}
use ruts.Store.Postgres.View.{shown, shown_lem, shown-written, shown-same}
use ruts.Store.Postgres.Traits.{set_with_meta}

-- the row that could be read before, if there was one
abbrev pub kept : Option FieldRow → Option FieldRow → Option FieldRow
kept none after = after
kept (some r) after = some r

kept_lem :
    (before after : Option FieldRow)
    → ((r : FieldRow) → before ≡ some r → after ≡ some r)
    → after ≡ kept before after
kept_lem none after h = refl
kept_lem (some r) after h = h r refl

module _ (b64 : Base64) (duplicate_key : String) (now t : ℕ) where
  -- The session's expiry after an upsert is current while the old one was, or the new deadline is.
  session_expiry-old :
      (session : Option ℕ) (key_ttl : ℤ)
      → is_current t session ≡ true
      → is_current t (session_expiry b64 duplicate_key now (some session) key_ttl) ≡ true
  session_expiry-old session key_ttl h = ground arith

  pub session_expiry-new :
      (o : Option (Option ℕ)) (key_ttl : ℤ)
      → is_current t (deadline now key_ttl) ≡ true
      → is_current t (session_expiry b64 duplicate_key now o key_ttl) ≡ true
  session_expiry-new none key_ttl h = h
  session_expiry-new (some session) key_ttl h = ground arith

  module _ (db : Db) (id : SessionId) (field : String) (row : FieldRow) (key_ttl : ℤ) where
    abbrev pub written : Db
    written = (upsert_row b64 duplicate_key now (to_string b64 id) field row key_ttl db).1

    pub shown-upsert_row :
        (f : String)
        → is_current t (deadline now key_ttl) ≡ true
        → (shown b64 t written id field ≡ (if current t row then some row else none))
          × ((r : FieldRow)
              → str_eq field f ≡ false
              → shown b64 t db id f ≡ some r
              → shown b64 t written id f ≡ some r)
    unfolding upsert_row
    shown-upsert_row f lasting =
        let key = to_string b64 id in
        let rows = rows_of (HashMap.get db.fields key) in
        let session = session_expiry b64 duplicate_key now (HashMap.get db.sessions key) key_ttl in
        let alive = session_expiry-new (HashMap.get db.sessions key) key_ttl lasting in
        (
          ground (
            arith,
            shown-written b64 t db id session (HashMap.insert field row rows) field,
            alive,
            get-insert rows field field row,
            eq_iff field field,
          ),
          λ r other readable. ground (
            arith,
            shown-written b64 t db id session (HashMap.insert field row rows) f,
            alive,
            get-insert rows field f row,
            shown_lem b64 t db id f,
          ),
        )

    pub shown-upsert_row_ne :
        (j : SessionId) (f : String)
        → same_session b64 id j ≡ false
        → shown b64 t written j f ≡ shown b64 t db j f
    unfolding upsert_row
    shown-upsert_row_ne j f other =
        let key = to_string b64 id in
        let rows = rows_of (HashMap.get db.fields key) in
        let session = session_expiry b64 duplicate_key now (HashMap.get db.sessions key) key_ttl in
        ground (
          arith,
          shown_lem b64 t written j f,
          shown_lem b64 t db j f,
          get-insert db.sessions key (to_string b64 j) session,
          get-insert db.fields key (to_string b64 j) (HashMap.insert field row rows),
        )

  -- With lifetimes other than 0 and a value that is encoded, `set_with_meta` succeeds. While the
  -- session's new deadline lasts, the value can be read until its own lifetime ends, and the other
  -- fields of the session that could be read still can; other sessions are as they were.
  pub shown-set_with_meta :
      {T : Type 0} (codec : Codec T) (db : Db) (id : SessionId) (field : String) (value : T)
      (key_ttl field_ttl : ℤ) (hot : Option ℤ) (bytes : Bytes)
      → key_ttl ≢ pos 0
      → field_ttl ≢ pos 0
      → serialize_value codec value ≡ ok bytes
      → is_current t (deadline now key_ttl) ≡ true
      → (ttl : ℤ) × (db' : Db) × (set_with_meta b64 duplicate_key now codec id field value key_ttl
            field_ttl hot db
          ≡ (ok ttl, db'))
        × (shown b64 t db' id field ≡ (
            if is_current t (deadline now field_ttl)
            then some (record {
              value = bytes;
              expires_at = deadline now field_ttl;
              hot_cache_ttl = min_option hot (some field_ttl);
            })
            else none))
        × ((f : String)
            → shown b64 t db' id f ≡ (
                if str_eq field f
                then shown b64 t db' id field
                else kept (shown b64 t db id f) (shown b64 t db' id f)))
        × ((j : SessionId) (f : String)
            → shown b64 t db' j f
              ≡ (if same_session b64 id j then shown b64 t db' id f else shown b64 t db j f))
  unfolding set_with_meta
  shown-set_with_meta codec db id field value key_ttl field_ttl hot bytes k l encoded lasting =
      let row : FieldRow = record {
        value = bytes;
        expires_at = deadline now field_ttl;
        hot_cache_ttl = min_option hot (some field_ttl);
      } in
      let sent = upsert_row b64 duplicate_key now (to_string b64 id) field row key_ttl db in
      (
        sent.0,
        sent.1,
        ground arith,
        (shown-upsert_row db id field row key_ttl field lasting).0,
        λ f. elim (Bool-cases (str_eq field f)) [
          | inl e ↦ ground (arith, eq_iff field f)
          | inr e ↦ ground (
            arith,
            kept_lem (shown b64 t db id f) (shown b64 t sent.1 id f)
                (λ r. (shown-upsert_row db id field row key_ttl f lasting).1 r e),
          )
        ],
        λ j f. ground (
          arith,
          shown-same b64 t sent.1 id j f,
          shown-upsert_row_ne db id field row key_ttl j f,
        ),
      )
