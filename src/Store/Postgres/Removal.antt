-- ===== src/Store/Postgres/Removal.antt =====
-- src/store/postgres/mod.rs: `_remove` and the background task, by the rows that can be read at an
-- instant `t`.
use ruts.Prelude.{
  ℕ, String, ◌≡◌, Option, none, some, true, false, gone, arith, [], ◌∷◌, Option-cases, Bool-cases,
  inl, inr, if◌then◌else◌, leb, str_eq, eq_iff, length,
}
use ruts.Outcome.{ok}
use ruts.HashMap
use ruts.HashMap.{
  HashMap, values, is_empty, keep_if, map_option, get-retain, get-retain_keys, get-map_values,
  get-remove, get-insert,
}
use ruts.SessionId.{SessionId, Base64, to_string}
use ruts.Store.Postgres.{decided, remove}
use ruts.Store.Postgres.View.{shown, shown_lem, shown-written, shown-rows}
use ruts.Store.Postgres.Tables.{FieldRow, Rows, Db, rows_of, is_current, greatest, latest}

greatest_left :
    (t : ℕ) (a b : Option ℕ) → is_current t a ≡ true → is_current t (greatest a b) ≡ true
greatest_left t a b h = ground arith

greatest_right :
    (t : ℕ) (a b : Option ℕ) → is_current t b ≡ true → is_current t (greatest a b) ≡ true
greatest_right t a b h = ground arith

-- the latest expiry is current while one of the rows is
latest_lem :
    (t : ℕ) (rows : Rows) (f : String) (r : FieldRow)
    → HashMap.get rows f ≡ some r
    → is_current t r.expires_at ≡ true
    → is_current t (latest (values rows)) ≡ true
unfolding HashMap.get latest
latest_lem t [] f r here live = absurd (ground arith)
latest_lem t ((k, q) ∷ []) f r here live = ground arith
latest_lem t ((k, q) ∷ (k', q') ∷ rows) f r here live = elim (Bool-cases (str_eq k f)) [
  | inl e ↦ ground (arith, greatest_left t q.expires_at (latest (values ((k', q') ∷ rows))))
  | inr e ↦ ground (
    arith,
    greatest_right t q.expires_at (latest (values ((k', q') ∷ rows))),
    latest_lem t ((k', q') ∷ rows) f r,
  )
]

module _ (b64 : Base64) where
  module _ (duplicate_key : String) (now t : ℕ) (db : Db) (id : SessionId) where
    abbrev key : String
    key = to_string b64 id

    -- Removing any field of a session with one field deletes the session, whether or not that is
    -- the field that it has: -2 is reported, and nothing of the session can be read.
    pub remove-single :
        (session : Option ℕ) (held field f : String) (r : FieldRow)
        → HashMap.get db.sessions (to_string b64 id) ≡ some session
        → HashMap.get db.fields (to_string b64 id) ≡ some ((held, r) ∷ [])
        → ((remove b64 duplicate_key now id field db).0 ≡ ok gone)
          × (shown b64 t (remove b64 duplicate_key now id field db).1 id f ≡ none)
    unfolding remove
    remove-single session held field f r there single = (
      ground arith,
      ground (
        arith,
        shown_lem b64 t (remove b64 duplicate_key now id field db).1 id f,
        get-remove db.sessions key key,
        eq_iff key key,
      ),
    )

    -- From a session with more than one field, `remove` takes the field, and every other field
    -- that could be read at an instant still can, though the session's expiry may have been
    -- brought forward.
    pub remove-others :
        (field f : String) (r : FieldRow)
        → leb (length (rows_of (HashMap.get db.fields (to_string b64 id)))) 1 ≡ false
        → shown b64 t db id f ≡ some r
        → (shown b64 t (remove b64 duplicate_key now id field db).1 id field ≡ none)
          × (shown b64 t (remove b64 duplicate_key now id field db).1 id f
              ≡ (if str_eq field f then none else some r))
    unfolding remove
    remove-others field f r many readable =
        let rows = rows_of (HashMap.get db.fields key) in
        elim (Option-cases (HashMap.get db.sessions key)) [
          | inl e ↦ absurd (ground (arith, shown_lem b64 t db id f))
          | inr (session, e) ↦ elim (Option-cases (HashMap.get rows field)) [
            | inl a ↦ (
              ground (arith, shown_lem b64 t db id field),
              ground (arith, shown_lem b64 t db id f, eq_iff field f),
            )
            | inr (row, b) ↦
                let others = HashMap.remove field rows in
                let next = latest (values others) in
                elim (Bool-cases (decided row.expires_at session)) [
                  | inl d ↦ (
                    ground (
                      arith,
                      shown-written b64 t db id next others field,
                      get-remove rows field field,
                      eq_iff field field,
                    ),
                    ground (
                      arith,
                      shown-written b64 t db id next others f,
                      get-remove rows field f,
                      shown_lem b64 t db id f,
                      latest_lem t others f r,
                    ),
                  )
                  | inr d ↦ (
                    ground (
                      arith,
                      shown-rows b64 t db id others field,
                      get-remove rows field field,
                      eq_iff field field,
                    ),
                    ground (
                      arith,
                      shown-rows b64 t db id others f,
                      get-remove rows field f,
                      shown_lem b64 t db id f,
                    ),
                  )
                ]
          ]
        ]
