-- ===== src/Store/Postgres/Expires.antt =====
-- src/store/postgres/mod.rs: `expire` in the terms of the contract.
use ruts.Prelude.{
  ℕ, ◌≤◌, String, ◌≡◌, Bool, true, false, ℤ, pos, ltb_ℤ, arith, eq_iff, Option-cases, Bool-cases,
  inl, inr, Option, none, some, if◌then◌else◌,
}
use ruts.Outcome.{ok}
use ruts.HashMap
use ruts.SessionId.{SessionId, Base64, to_string, same_session}
use ruts.Store.Contract.{Expires}
use ruts.Store.Postgres.Contract.{postgres_timed, postgres_view}
use ruts.Store.Postgres.Expiry.{shown-expire}
use ruts.Store.Postgres.Kept.{expire-kept}
use ruts.Store.Postgres.Linked.{links-Keeps}
use ruts.Store.Postgres.Queries.{expire, expire_rows}
use ruts.Store.Postgres.Tables.{Db, is_current, plus_secs}
use ruts.Store.Postgres.Renames.{IsLinked}
use ruts.Store.Postgres.View.{shown, shown_lem}

not_current :
    (now t : ℕ) (o : Option ℕ) → now ≤ t → is_current now o ≡ false → is_current t o ≡ false
not_current now t none h c = absurd (ground arith)
not_current now t (some e) h c = ground arith

module _ (b64 : Base64) (duplicate_key : String) where
  -- whether the session was there or not
  expire-hides :
      (now t : ℕ) (id : SessionId) (seconds : ℤ) (db : Db)
      → ltb_ℤ (pos 0) seconds ≡ true
      → now ≤ t
      → plus_secs now seconds ≤ t
      → (done : Bool) × ((expire b64 now duplicate_key id seconds db).0 ≡ ok done)
        × ((j : SessionId) (f : String)
            → shown b64 t (expire b64 now duplicate_key id seconds db).1 j f
              ≡ (if same_session b64 id j then none else shown b64 t db j f))
  unfolding expire expire_rows
  expire-hides now t id seconds db positive order later =
      let key = to_string b64 id in
      elim (Option-cases (HashMap.get db.sessions key)) [
        | inl e ↦ (
          false,
          ground arith,
          λ j f. ground (arith, shown_lem b64 t db j f, eq_iff key (to_string b64 j)),
        )
        | inr (session, e) ↦ elim (Bool-cases (is_current now session)) [
          | inl c ↦ (
            true,
            ground arith,
            λ j f.
                shown-expire b64 now t db duplicate_key id j f seconds positive (ground arith)
                  later,
          )
          | inr c ↦ (
            false,
            ground arith,
            λ j f. ground (
              arith,
              shown_lem b64 t db j f,
              eq_iff key (to_string b64 j),
              not_current now t session order c,
            ),
          )
        ]
      ]

  -- After an `expire` of the Postgres store with a positive lifetime, on tables that keep the foreign
  -- key, nothing of the session can be read from the end of that on, and the other sessions show
  -- what they did.
  pub postgres-Expires :
      Expires b64 (postgres_timed b64 duplicate_key) (postgres_view b64 duplicate_key)
  postgres-Expires = record {
    expire-view = λ now t id seconds s valid order positive ended.
        let (r, s') = expire b64 now duplicate_key id seconds s in
        let (done, answered, after) =
          expire-hides now t id seconds s positive order (ground arith) in
        (
          done,
          s',
          ground (arith, answered),
          λ f. ground (arith, after id f, eq_iff (to_string b64 id) (to_string b64 id)),
          λ j f other. ground (arith, after j f),
          expire-kept b64 duplicate_key IsLinked (links-Keeps b64 duplicate_key) now id seconds s
              valid,
        );
  }
