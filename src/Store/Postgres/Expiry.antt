-- ===== src/Store/Postgres/Expiry.antt =====
-- src/store/postgres/mod.rs: `expire` and the background task.
use ruts.Prelude.{
  ℕ, ◌≤◌, String, ◌≡◌, refl, Option, none, some, true, ℤ, pos, arith, Option-cases, inl, inr,
  if◌then◌else◌, ltb_ℤ,
}
use ruts.Outcome.{ok}
use ruts.HashMap
use ruts.HashMap.{
  HashMap, keep_if, map_option, get-retain, get-retain_keys, get-map_values, get-insert,
}
use ruts.SessionId.{SessionId, Base64, to_string, same_session}
use ruts.Store.Postgres.{cap}
use ruts.Store.Postgres.Queries.{current, not_over, is_some, cleanup, expire}
use ruts.Store.Postgres.Tables.{FieldRow, Rows, Db, rows_of, is_current, plus_secs}
use ruts.Store.Postgres.View.{shown, shown_lem}

-- what is current at a later instant is not over at the task's
current-not_over :
    (now t : ℕ) (o : Option ℕ) → now ≤ t → is_current t o ≡ true → not_over now o ≡ true
current-not_over now t none h c = refl
current-not_over now t (some e) h c = ground arith

-- of the rows that the task keeps, the same ones are current later
kept_row :
    (now t : ℕ) (o : Option FieldRow)
    → now ≤ t
    → keep_if (current t) (keep_if (λ r. not_over now r.expires_at) o) ≡ keep_if (current t) o
kept_row now t none h = refl
kept_row now t (some r) h = ground (arith, current-not_over now t r.expires_at h)

kept_rows :
    (now t : ℕ) (o : Option Rows) (f : String)
    → now ≤ t
    → keep_if (current t) (
        HashMap.get
          (rows_of (map_option (HashMap.retain (λ (r : FieldRow). not_over now r.expires_at)) o))
          f)
      ≡ keep_if (current t) (HashMap.get (rows_of o) f)
kept_rows now t none f h = refl
kept_rows now t (some rows) f h = rw get-retain (kept_row now t (HashMap.get rows f) h)

module _ (b64 : Base64) (now t : ℕ) (db : Db) where
  -- A tick of the background task changes nothing that can be read from then on.
  pub shown-cleanup :
      (id : SessionId) (f : String)
      → now ≤ t
      → shown b64 t (cleanup now db) id f ≡ shown b64 t db id f
  unfolding cleanup
  shown-cleanup id f order =
      let key = to_string b64 id in
      let after = cleanup now db in
      let sessions = HashMap.retain (not_over now) db.sessions in
      let held = λ (k : String). is_some (HashMap.get sessions k) in
      let keep : Rows → Rows = HashMap.retain (λ (r : FieldRow). not_over now r.expires_at) in
      elim (Option-cases (HashMap.get db.sessions key)) [
        | inl e ↦ ground (
          arith,
          shown_lem b64 t after id f,
          shown_lem b64 t db id f,
          get-retain (not_over now) db.sessions key,
        )
        | inr (session, e) ↦ ground (
          arith,
          shown_lem b64 t after id f,
          shown_lem b64 t db id f,
          get-retain (not_over now) db.sessions key,
          get-retain_keys held db.fields key,
          get-map_values keep (HashMap.retain_keys held db.fields) key,
          current-not_over now t session order,
          kept_rows now t (HashMap.get db.fields key) f order,
        )
      ]

  -- After a successful `expire` with a positive lifetime, no field of the session can be read
  -- from the end of that lifetime on, and the other sessions are as they were.
  pub shown-expire :
      (duplicate_key : String) (id j : SessionId) (f : String) (ttl : ℤ)
      → ltb_ℤ (pos 0) ttl ≡ true
      → (expire b64 now duplicate_key id ttl db).0 ≡ ok true
      → plus_secs now ttl ≤ t
      → shown b64 t (expire b64 now duplicate_key id ttl db).1 j f
        ≡ (if same_session b64 id j then none else shown b64 t db j f)
  unfolding expire
  shown-expire duplicate_key id j f ttl positive done later =
      let key = to_string b64 id in
      let k = to_string b64 j in
      let after = (expire b64 now duplicate_key id ttl db).1 in
      let target = some (plus_secs now ttl) in
      let capped = λ (rows : Rows). HashMap.map_values (cap target) rows in
      elim (Option-cases (HashMap.get db.fields key)) [
        | inl e ↦ ground (
          arith,
          shown_lem b64 t after j f,
          shown_lem b64 t db j f,
          get-insert db.sessions key k target,
        )
        | inr (rows, e) ↦ ground (
          arith,
          shown_lem b64 t after j f,
          shown_lem b64 t db j f,
          get-insert db.sessions key k target,
          get-insert db.fields key k (capped rows),
        )
      ]
