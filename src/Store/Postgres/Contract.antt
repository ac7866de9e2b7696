-- ===== src/Store/Postgres/Contract.antt =====
-- src/store/postgres/mod.rs: the Postgres store meets the contract of a store, on tables that keep the
-- foreign key.
use ruts.Prelude.{String, eq_iff, arith}
use ruts.HashMap
use ruts.HashMap.{HashMap, map_option, keep_if, values, get-remove, get-insert}
use ruts.SessionId.{SessionId, Base64, to_string}
use ruts.Store.Contract.{Timed, View, Meets}
use ruts.Store.Postgres
use ruts.Store.Postgres.{session_expiry, upsert_row, upsert, send, decided, rename_session_id}
use ruts.Store.Postgres.Queries
use ruts.Store.Postgres.Queries.{current_rows, is_some, current}
use ruts.Store.Postgres.Tables.{FieldRow, Db}
use ruts.Store.Postgres.Traits
use ruts.Store.Postgres.View.{shown}
use ruts.Store.Postgres.Renames.{IsLinked, shown-rename_session_id}
use ruts.Store.Postgres.Linked.{
  delete-IsLinked, rename-IsLinked, remove-IsLinked, upsert_row-IsLinked,
}
use ruts.Store.Postgres.Erasure.{shown-delete, shown-remove, remove-answers, delete-answers}
use ruts.Store.Postgres.Upserts.{
  lasts, lasts-nonzero, is_some_lem, is_none_lem, get-shown, row_of, upserted, shown-field,
  shown-others, shown-sessions, set-upserts, rename-upserts,
}

module _ (b64 : Base64) (duplicate_key : String) where
  abbrev pub postgres_timed : Timed
  postgres_timed = record {
    State = Db;
    get = λ now codec. Queries.get b64 now codec;
    get_all = λ now. Queries.get_all b64 now;
    set = λ now codec. Traits.set b64 duplicate_key now codec;
    set_and_rename = λ now codec. Traits.set_and_rename b64 duplicate_key now codec;
    rename_session_id = λ now. Postgres.rename_session_id b64 duplicate_key now;
    remove = λ now. Postgres.remove b64 duplicate_key now;
    delete = λ now. Postgres.delete b64 duplicate_key now;
    expire = λ now. Queries.expire b64 now duplicate_key;
  }

  abbrev pub postgres_view : View Db
  postgres_view = record {
    IsValid = IsLinked;
    view = λ t s id f. map_option (λ (r : FieldRow). r.value) (shown b64 t s id f);
    known = λ t s id. is_some (HashMap.get s.sessions (to_string b64 id));
    lasts = lasts;
  }

  -- The Postgres store meets the contract, on tables that keep the foreign key.
  pub postgres-Meets : Meets b64 postgres_timed postgres_view
  postgres-Meets = record {
    get-view = get-shown b64 duplicate_key;
    set-view = λ codec now t id field value key_ttl field_ttl hot bytes s linked order encoded k l.
        let k0 = lasts-nonzero now t key_ttl order k in
        let l0 = lasts-nonzero now t field_ttl order l in
        let row = row_of b64 duplicate_key now bytes field_ttl in
        let key = to_string b64 id in
        let (ttl, s') = upsert_row b64 duplicate_key now key field row key_ttl s in
        let (above, there) =
          upserted b64 duplicate_key now t id field bytes key_ttl field_ttl s order k in
        (
          ttl,
          s',
          set-upserts b64 duplicate_key codec now id field value key_ttl field_ttl hot bytes s
              encoded k0 l0,
          above,
          shown-field b64 duplicate_key now t id field bytes key_ttl field_ttl s order k l,
          shown-others b64 duplicate_key now t id field bytes key_ttl field_ttl s order k l,
          shown-sessions b64 duplicate_key now t id field bytes key_ttl field_ttl s order k l,
          there,
          upsert_row-IsLinked b64 duplicate_key now s linked key field row key_ttl,
        );
    set_and_rename-view =
        λ codec now t old new field value key_ttl field_ttl hot bytes s linked order encoded k l
            distinct here free.
          let k0 = lasts-nonzero now t key_ttl order k in
          let l0 = lasts-nonzero now t field_ttl order l in
          let row = row_of b64 duplicate_key now bytes field_ttl in
          let key = to_string b64 new in
          let (r, s₁) = rename_session_id b64 duplicate_key now old new s in
          let (ttl, s') = upsert_row b64 duplicate_key now key field row key_ttl s₁ in
          let (above, there) =
            upserted b64 duplicate_key now t new field bytes key_ttl field_ttl s₁ order k in
          let (session, named) = is_some_lem (HashMap.get s.sessions (to_string b64 old)) here in
          let absent = is_none_lem (HashMap.get s.sessions key) free in
          let moved = λ (j : SessionId) (f : String).
            shown-rename_session_id b64 duplicate_key now s old new t j f session linked named
              absent in
          (
            ttl,
            s',
            rename-upserts b64 duplicate_key codec now old new field value key_ttl field_ttl hot
                bytes s encoded k0 l0 (moved old field).0,
            above,
            shown-field b64 duplicate_key now t new field bytes key_ttl field_ttl s₁ order k l,
            λ f b other seen.
                shown-others b64 duplicate_key now t new field bytes key_ttl field_ttl s₁ order k l
                  f b other (ground (arith, (moved new f).1, eq_iff key key)),
            λ f. ground (
              arith,
              shown-sessions b64 duplicate_key now t new field bytes key_ttl field_ttl s₁ order k l
                  old f distinct,
              (moved old f).1,
              eq_iff (to_string b64 old) (to_string b64 old),
            ),
            λ j f n o. ground (
              arith,
              shown-sessions b64 duplicate_key now t new field bytes key_ttl field_ttl s₁ order k l
                  j f n,
              (moved j f).1,
            ),
            upsert_row-IsLinked b64 duplicate_key now s₁
                (rename-IsLinked b64 duplicate_key now s linked old new) key field row key_ttl,
          );
    rename-view = λ now t old new field bytes s linked order distinct here readable free.
        let key = to_string b64 new in
        let (r, s') = rename_session_id b64 duplicate_key now old new s in
        let (session, named) = is_some_lem (HashMap.get s.sessions (to_string b64 old)) here in
        let absent = is_none_lem (HashMap.get s.sessions key) free in
        let moved = λ (j : SessionId) (f : String).
          shown-rename_session_id b64 duplicate_key now s old new t j f session linked named
            absent in
        (
          s',
          ground (arith, (moved old field).0),
          λ f. ground (arith, (moved new f).1, eq_iff key key),
          λ f. ground (arith, (moved old f).1, eq_iff (to_string b64 old) (to_string b64 old)),
          λ j f n o. ground (arith, (moved j f).1),
          rename-IsLinked b64 duplicate_key now s linked old new,
        );
    remove-view = λ now t id field s linked order.
        let (r, s') = Postgres.remove b64 duplicate_key now id field s in
        let (ttl, answered) = remove-answers b64 duplicate_key now id field s in
        (
          ttl,
          s',
          ground (arith, answered),
          ground (arith, (shown-remove b64 duplicate_key now t s id field id field).0),
          λ j f other.
              ground (arith, (shown-remove b64 duplicate_key now t s id field j f).1 other),
          remove-IsLinked b64 duplicate_key now s linked id field,
        );
    delete-view = λ now t id s linked order.
        let (r, s') = Postgres.delete b64 duplicate_key now id s in
        let (done, answered) = delete-answers b64 duplicate_key now id s in
        let after = λ (j : SessionId) (f : String). shown-delete b64 duplicate_key now t s id j f in
        (
          done,
          s',
          ground (arith, answered),
          λ f. ground (arith, after id f, eq_iff (to_string b64 id) (to_string b64 id)),
          λ j f other. ground (arith, after j f),
          delete-IsLinked b64 duplicate_key now s linked id,
        );
  }
