-- ===== src/Store/Postgres/Erasure.antt =====
-- src/store/postgres/mod.rs: what `remove` and `delete` leave to be read, in the form that the contract
-- of a store asks for.
use ruts.Prelude.{
  ℕ, String, ◌≡◌, Bool, true, false, none, ℤ, leb, gone, eq_iff, arith, if◌then◌else◌, Option-cases,
  Bool-cases, inl, inr, length,
}
use ruts.Outcome.{ok}
use ruts.HashMap
use ruts.HashMap.{HashMap, map_option, keep_if, values, get-remove, get-insert}
use ruts.SessionId.{SessionId, Base64, to_string, same_session}
use ruts.Store.Postgres
use ruts.Store.Postgres.{session_expiry, upsert_row, upsert, send, decided, rename_session_id}
use ruts.Store.Postgres.Tables.{Db, rows_of, ttl_of, latest}
use ruts.Store.Postgres.View.{shown, shown_lem}

module _ (b64 : Base64) (duplicate_key : String) where
  module _ (now t : ℕ) (s : Db) (id : SessionId) where
    abbrev key : String
    key = to_string b64 id

    pub shown-delete :
        (j : SessionId) (f : String)
        → shown b64 t (Postgres.delete b64 duplicate_key now id s).1 j f
          ≡ (if same_session b64 id j then none else shown b64 t s j f)
    unfolding Postgres.delete
    shown-delete j f =
        let k = to_string b64 j in
        ground (
          arith,
          shown_lem b64 t (Postgres.delete b64 duplicate_key now id s).1 j f,
          shown_lem b64 t s j f,
          get-remove s.sessions key k,
          get-remove s.fields key k,
          eq_iff key k,
        )

    pub shown-remove :
        (field : String) (j : SessionId) (f : String)
        → (shown b64 t (Postgres.remove b64 duplicate_key now id field s).1 id field ≡ none)
          × (same_session b64 id j ≡ false
              → shown b64 t (Postgres.remove b64 duplicate_key now id field s).1 j f
                ≡ shown b64 t s j f)
    unfolding Postgres.remove
    shown-remove field j f =
        let k = to_string b64 j in
        let rows = rows_of (HashMap.get s.fields key) in
        let others = HashMap.remove field rows in
        let after = (Postgres.remove b64 duplicate_key now id field s).1 in
        (
          ground (
            arith,
            shown_lem b64 t after id field,
            get-remove s.sessions key key,
            get-insert s.sessions key key (latest (values others)),
            get-insert s.fields key key others,
            get-remove rows field field,
            eq_iff key key,
            eq_iff field field,
          ),
          λ other. ground (
            arith,
            shown_lem b64 t after j f,
            shown_lem b64 t s j f,
            get-remove s.sessions key k,
            get-remove s.fields key k,
            get-insert s.sessions key k (latest (values others)),
            get-insert s.fields key k others,
          ),
        )

  pub remove-answers :
      (now : ℕ) (id : SessionId) (field : String) (s : Db)
      → (ttl : ℤ) × ((Postgres.remove b64 duplicate_key now id field s).0 ≡ ok ttl)
  unfolding Postgres.remove
  remove-answers now id field s =
      let key = to_string b64 id in
      let rows = rows_of (HashMap.get s.fields key) in
      elim (Option-cases (HashMap.get s.sessions key)) [
        | inl e ↦ (gone, ground arith)
        | inr (session, e) ↦ elim (Bool-cases (leb (length rows) 1)) [
          | inl one ↦ (gone, ground arith)
          | inr many ↦ elim (Option-cases (HashMap.get rows field)) [
            | inl a ↦ (ttl_of now session, ground arith)
            | inr (row, b) ↦ elim (Bool-cases (decided row.expires_at session)) [
              | inl d ↦ (ttl_of now (latest (values (HashMap.remove field rows))), ground arith)
              | inr d ↦ (ttl_of now session, ground arith)
            ]
          ]
        ]
      ]

  pub delete-answers :
      (now : ℕ) (id : SessionId) (s : Db)
      → (done : Bool) × ((Postgres.delete b64 duplicate_key now id s).0 ≡ ok done)
  unfolding Postgres.delete
  delete-answers now id s = elim (Option-cases (HashMap.get s.sessions (to_string b64 id))) [
    | inl e ↦ (false, ground arith)
    | inr (session, e) ↦ (true, ground arith)
  ]
