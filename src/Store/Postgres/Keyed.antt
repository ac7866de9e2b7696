-- ===== src/Store/Postgres/Keyed.antt =====
-- src/store/postgres/mod.rs: the primary keys of the two tables, after any calls and ticks.
use ruts.Prelude.{
  ℕ, String, ◌≡◌, Option, none, some, ℤ, pos, ltb_ℤ, leb, length, Bool-cases, Option-cases, inl,
  inr, arith, if◌then◌else◌,
}
use ruts.HashMap
use ruts.HashMap.{HashMap, map_option, values}
use ruts.HashMap.Keys.{
  IsKeyed, remove-IsKeyed, insert-IsKeyed, retain-IsKeyed, retain_keys-IsKeyed, map_values-IsKeyed,
}
use ruts.SessionId.{SessionId, Base64, to_string}
use ruts.Store.Postgres.{remove, cap, decided}
use ruts.Store.Postgres.Queries.{expire_rows, cleanup, not_over, is_some}
use ruts.Store.Postgres.Tables.{FieldRow, Rows, Db, rows_of, latest, plus_secs, is_current}
use ruts.Store.Postgres.Kept.{Keeps}
use ruts.Store.Postgres.Keys.{
  HasKeys, here-IsKeyed, dropped, dropped-HasKeys, insert-EachKeyed, retain_keys-EachKeyed,
  map_values-EachKeyed, delete-HasKeys, rename-HasKeys, upsert_row-HasKeys,
}

module _ (b64 : Base64) (duplicate_key : String) (now : ℕ) (db : Db) (h : HasKeys db) where
  -- the tables after other rows, and perhaps another expiry, for a session
  abbrev with_rows : String → Option ℕ → Rows → Db
  with_rows key session rows = record {
    sessions = HashMap.insert key session db.sessions;
    fields = HashMap.insert key rows db.fields;
  }

  with_rows-HasKeys :
      (key : String) (session : Option ℕ) (rows : Rows)
      → IsKeyed rows
      → HasKeys (with_rows key session rows)
  with_rows-HasKeys key session rows k = record {
    sessions = insert-IsKeyed key session db.sessions h.sessions;
    fields = insert-IsKeyed key rows db.fields h.fields;
    rows = insert-EachKeyed db.fields h.rows key rows k;
  }

  abbrev only_rows : String → Rows → Db
  only_rows key rows = record db { fields = HashMap.insert key rows db.fields }

  only_rows-HasKeys : (key : String) (rows : Rows) → IsKeyed rows → HasKeys (only_rows key rows)
  only_rows-HasKeys key rows k = record {
    sessions = h.sessions;
    fields = insert-IsKeyed key rows db.fields h.fields;
    rows = insert-EachKeyed db.fields h.rows key rows k;
  }

  remove-HasKeys :
      (id : SessionId) (field : String) → HasKeys (remove b64 duplicate_key now id field db).1
  remove-HasKeys id field =
      let key = to_string b64 id in
      let after = (remove b64 duplicate_key now id field db).1 in
      let rows = rows_of (HashMap.get db.fields key) in
      let others = HashMap.remove field rows in
      let keyed = remove-IsKeyed field rows (here-IsKeyed b64 duplicate_key now db h key) in
      elim (Option-cases (HashMap.get db.sessions key)) [
        | inl e ↦ (let same : after ≡ db = unfold remove in ground arith in rw same h)
        | inr (session, e) ↦ elim (Bool-cases (leb (length rows) 1)) [
          | inl one ↦
              (let same : after ≡ dropped b64 duplicate_key now db h key =
                  unfold remove in ground arith in
                rw same (dropped-HasKeys b64 duplicate_key now db h key))
          | inr many ↦ elim (Option-cases (HashMap.get rows field)) [
            | inl a ↦ (let same : after ≡ db = unfold remove in ground arith in rw same h)
            | inr (row, b) ↦ elim (Bool-cases (decided row.expires_at session)) [
              | inl d ↦
                  (let same : after ≡ with_rows key (latest (values others)) others =
                      unfold remove in ground arith in
                    rw same (with_rows-HasKeys key (latest (values others)) others keyed))
              | inr d ↦
                  (let same : after ≡ only_rows key others = unfold remove in ground arith in
                    rw same (only_rows-HasKeys key others keyed))
            ]
          ]
        ]
      ]

  expire_rows-HasKeys : (key : String) (ttl : ℤ) → HasKeys (expire_rows b64 now key ttl db).1
  expire_rows-HasKeys key ttl =
      let target = if ltb_ℤ ttl (pos 0) then none else some (plus_secs now ttl) in
      let after = (expire_rows b64 now key ttl db).1 in
      elim (Option-cases (HashMap.get db.sessions key)) [
        | inl e ↦ (let same : after ≡ db = unfold expire_rows in ground arith in rw same h)
        | inr (session, e) ↦ elim (Bool-cases (is_current now session)) [
          | inr over ↦ (let same : after ≡ db = unfold expire_rows in ground arith in rw same h)
          | inl current ↦ elim (Option-cases (HashMap.get db.fields key)) [
            | inl bare ↦
                (let same : after ≡ record db { sessions = HashMap.insert key target db.sessions } =
                    unfold expire_rows in ground arith in
                  rw same (record {
                    sessions = insert-IsKeyed key target db.sessions h.sessions;
                    fields = h.fields;
                    rows = h.rows;
                  }))
            | inr (rows, full) ↦
                let capped = HashMap.map_values (cap target) rows in
                (let same : after ≡ with_rows key target capped =
                    unfold expire_rows in ground arith in
                  rw same (
                    with_rows-HasKeys key target capped
                      (map_values-IsKeyed (cap target) rows (h.rows key rows full))))
          ]
        ]
      ]

  cleanup-HasKeys : HasKeys (cleanup now db)
  unfolding cleanup
  cleanup-HasKeys =
      let held =
        λ (key : String). is_some (HashMap.get (HashMap.retain (not_over now) db.sessions) key) in
      let keep : Rows → Rows = HashMap.retain (λ (r : FieldRow). not_over now r.expires_at) in
      record {
        sessions = retain-IsKeyed (not_over now) db.sessions h.sessions;
        fields = map_values-IsKeyed keep _ (retain_keys-IsKeyed held db.fields h.fields);
        rows =
            map_values-EachKeyed (HashMap.retain_keys held db.fields)
              (retain_keys-EachKeyed db.fields h.rows held) keep
              (λ rows k. retain-IsKeyed (λ (r : FieldRow). not_over now r.expires_at) rows k);
      }

module _ (b64 : Base64) (duplicate_key : String) where
  pub keys-Keeps : Keeps b64 duplicate_key HasKeys
  keys-Keeps = record {
    deleting = λ now db id h. delete-HasKeys b64 duplicate_key now db h id;
    renaming = λ now db old new h. rename-HasKeys b64 duplicate_key now db h old new;
    removing = λ now db id field h. remove-HasKeys b64 duplicate_key now db h id field;
    writing = λ now db key field row ttl h.
        upsert_row-HasKeys b64 duplicate_key now db h key field row ttl;
    stretching = λ now db key ttl h. expire_rows-HasKeys b64 duplicate_key now db h key ttl;
    ticking = λ now db h. cleanup-HasKeys b64 duplicate_key now db h;
  }
