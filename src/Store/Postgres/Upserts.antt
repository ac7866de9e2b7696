-- ===== src/Store/Postgres/Upserts.antt =====
-- src/store/postgres/mod.rs: what the statements of the store leave to be read, in the form that the
-- contract of a store asks for.
use ruts.Prelude.{
  ℕ, ◌≤◌, String, ◌≡◌, ◌≢◌, refl, ap, Bool, true, false, Option, none, some, ℤ, pos, ltb_ℤ, gone,
  str_eq, eq_iff, arith, Option-cases, inl, inr,
}
use ruts.Outcome.{ok}
use ruts.HashMap
use ruts.HashMap.{HashMap, map_option, keep_if, values, get-remove, get-insert}
use ruts.SessionId.{SessionId, Base64, to_string, same_session}
use ruts.Store.Codec.{Bytes, Codec, serialize_value}
use ruts.Store.Contract.{read}
use ruts.Store.Postgres.{session_expiry, upsert_row, upsert, send, rename_session_id}
use ruts.Store.Postgres.Queries
use ruts.Store.Postgres.Queries.{current_rows, is_some, current}
use ruts.Store.Postgres.Tables.{FieldRow, Db, is_current, deadline, ttl_of, seconds_until}
use ruts.Store.Postgres.Traits
use ruts.Store.Postgres.View.{shown}
use ruts.Store.Postgres.Writes.{shown-upsert_row, shown-upsert_row_ne, session_expiry-new}

abbrev pub lasts : ℕ → ℤ → ℕ → Bool
lasts now ttl t = is_current t (deadline now ttl)

pub lasts-nonzero : (now t : ℕ) (ttl : ℤ) → now ≤ t → lasts now ttl t ≡ true → ttl ≢ pos 0
lasts-nonzero now t ttl order l e = ground arith

-- an expiry that is current at a later instant is reported as a lifetime above -2
pub ttl_of-above :
    (now t : ℕ) (o : Option ℕ) → now ≤ t → is_current t o ≡ true → ltb_ℤ gone (ttl_of now o) ≡ true
unfolding ttl_of seconds_until
ttl_of-above now t none order c = refl
ttl_of-above now t (some e) order c = ground arith

pub is_some_lem : (o : Option (Option ℕ)) → is_some o ≡ true → (a : Option ℕ) × (o ≡ some a)
is_some_lem none h = absurd (ground arith)
is_some_lem (some a) h = (a, refl)

pub is_none_lem : (o : Option (Option ℕ)) → is_some o ≡ false → o ≡ none
is_none_lem none h = refl
is_none_lem (some a) h = absurd (ground arith)

module _ (b64 : Base64) (duplicate_key : String) where
  pub get-shown :
      {T : Type 0} (codec : Codec T) (now : ℕ) (id : SessionId) (field : String) (s : Db)
      → Queries.get b64 now codec id field s
        ≡ (read codec (map_option (λ (r : FieldRow). r.value) (shown b64 now s id field)), s)
  unfolding Queries.get shown
  get-shown codec now id field s = ground arith

  -- the row that the two ways of setting write
  abbrev pub row_of : ℕ → Bytes → ℤ → FieldRow
  row_of now bytes field_ttl = record {
    value = bytes;
    expires_at = deadline now field_ttl;
    hot_cache_ttl = none;
  }

  -- what the statement of `_upsert` reports and leaves
  pub upserted :
      (now t : ℕ) (id : SessionId) (field : String) (bytes : Bytes) (key_ttl field_ttl : ℤ) (s : Db)
      → now ≤ t
      → lasts now key_ttl t ≡ true
      → (ltb_ℤ gone
            (upsert_row b64 duplicate_key now
              (to_string b64 id)
              field
              (row_of now bytes field_ttl)
              key_ttl
              s).0
          ≡ true)
        × (is_some (
              HashMap.get
                (upsert_row b64 duplicate_key now
                  (to_string b64 id)
                  field
                  (row_of now bytes field_ttl)
                  key_ttl
                  s).1.sessions
                (to_string b64 id))
            ≡ true)
  unfolding upsert_row
  upserted now t id field bytes key_ttl field_ttl s order k =
      let key = to_string b64 id in
      let session = session_expiry b64 duplicate_key now (HashMap.get s.sessions key) key_ttl in
      (
        ttl_of-above now t session order
            (session_expiry-new b64 duplicate_key now t (HashMap.get s.sessions key) key_ttl k),
        ground (arith, get-insert s.sessions key key session, eq_iff key key),
      )

  -- the row's value
  abbrev value_of : Option FieldRow → Option Bytes
  value_of o = map_option (λ (r : FieldRow). r.value) o

  module _ (now t : ℕ) (id : SessionId) (field : String) (bytes : Bytes) (key_ttl field_ttl : ℤ)
      (s : Db) (order : now ≤ t) (k : lasts now key_ttl t ≡ true)
      (l : lasts now field_ttl t ≡ true) where
    abbrev row : FieldRow
    row = row_of now bytes field_ttl

    abbrev written : Db
    written = (upsert_row b64 duplicate_key now (to_string b64 id) field row key_ttl s).1

    pub shown-field : value_of (shown b64 t written id field) ≡ some bytes
    shown-field =
        ground (arith, (shown-upsert_row b64 duplicate_key now t s id field row key_ttl field k).0)

    pub shown-others :
        (f : String) (b : Bytes)
        → str_eq field f ≡ false
        → value_of (shown b64 t s id f) ≡ some b
        → value_of (shown b64 t written id f) ≡ some b
    shown-others f b other seen =
        let after = (shown-upsert_row b64 duplicate_key now t s id field row key_ttl f k).1 in
        elim (Option-cases (shown b64 t s id f)) [
          | inl e ↦ absurd (ground arith)
          | inr (r, e) ↦ ground (arith, after r other e)
        ]

    pub shown-sessions :
        (j : SessionId) (f : String)
        → same_session b64 id j ≡ false
        → value_of (shown b64 t written j f) ≡ value_of (shown b64 t s j f)
    shown-sessions j f other =
        ap value_of (shown-upsert_row_ne b64 duplicate_key now t s id field row key_ttl j f other)

  pub set-upserts :
      {T : Type 0} (codec : Codec T) (now : ℕ) (id : SessionId) (field : String) (value : T)
      (key_ttl field_ttl : ℤ) (hot : Option ℤ) (bytes : Bytes) (s : Db)
      → serialize_value codec value ≡ ok bytes
      → key_ttl ≢ pos 0
      → field_ttl ≢ pos 0
      → Traits.set b64 duplicate_key now codec id field value key_ttl field_ttl hot s ≡ (
          let (ttl, s') =
            upsert_row b64 duplicate_key now
              (to_string b64 id)
              field
              (row_of now bytes field_ttl)
              key_ttl
              s in
          (ok ttl, s'))
  unfolding Traits.set
  set-upserts codec now id field value key_ttl field_ttl hot bytes s encoded k l = ground arith

  pub rename-upserts :
      {T : Type 0} (codec : Codec T) (now : ℕ) (old new : SessionId) (field : String) (value : T)
      (key_ttl field_ttl : ℤ) (hot : Option ℤ) (bytes : Bytes) (s : Db)
      → serialize_value codec value ≡ ok bytes
      → key_ttl ≢ pos 0
      → field_ttl ≢ pos 0
      → (rename_session_id b64 duplicate_key now old new s).0 ≡ ok true
      → Traits.set_and_rename b64 duplicate_key now codec old new field value key_ttl field_ttl hot
          s
        ≡ (let (ttl, s') =
              upsert_row b64 duplicate_key now
                (to_string b64 new)
                field
                (row_of now bytes field_ttl)
                key_ttl
                (rename_session_id b64 duplicate_key now old new s).1 in
            (ok ttl, s'))
  unfolding Traits.set_and_rename upsert send
  rename-upserts codec now old new field value key_ttl field_ttl hot bytes s encoded k l renamed =
      ground arith
