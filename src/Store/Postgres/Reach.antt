-- ===== src/Store/Postgres/Reach.antt =====
-- src/store/postgres/mod.rs: any sequence of the store's calls and of ticks of its background task,
-- at any instants.
use ruts.Prelude.{ℕ, String, Option, ℤ, []}
use ruts.SessionId.{SessionId, Base64}
use ruts.Store.Codec.{Codec}
use ruts.Store.Postgres.{rename_session_id, remove, delete, upsert}
use ruts.Store.Postgres.Queries.{expire, cleanup}
use ruts.Store.Postgres.Tables.{Db}
use ruts.Store.Postgres.Kept.{Keeps, upsert-kept, expire-kept}
use ruts.Store.Postgres.Keys.{HasKeys}
use ruts.Store.Postgres.Keyed.{keys-Keeps}

abbrev pub empty : Db
empty = record { sessions = []; fields = [] }

module _ (b64 : Base64) (duplicate_key : String) where
  -- `set`, `set_and_rename` and the two calls with metadata are calls of `upsert`.
  pub data Step : Db → Db → Type 1 where
    upserting :
        {T : Type 0} (codec : Codec T) (now : ℕ) (id : SessionId) (field : String) (value : T)
        (key_ttl field_ttl : ℤ) (hot : Option ℤ) (old : Option SessionId) (db : Db)
        → Step db (upsert b64 duplicate_key now codec id field value key_ttl field_ttl hot old db).1
    renaming :
        (now : ℕ) (old new : SessionId) (db : Db)
        → Step db (rename_session_id b64 duplicate_key now old new db).1
    removing :
        (now : ℕ) (id : SessionId) (field : String) (db : Db)
        → Step db (remove b64 duplicate_key now id field db).1
    deleting : (now : ℕ) (id : SessionId) (db : Db) → Step db (delete b64 duplicate_key now id db).1
    expiring :
        (now : ℕ) (id : SessionId) (ttl : ℤ) (db : Db)
        → Step db (expire b64 now duplicate_key id ttl db).1
    ticking : (now : ℕ) (db : Db) → Step db (cleanup now db)

  pub data Reach (db : Db) : Db → Type 1 where
    here : Reach db db
    next : {u v : Db} → Reach db u → Step u v → Reach db v

  -- a predicate that each statement keeps holds after a sequence of steps, if it held before
  module _ (P : Db → Type 0) (keeps : Keeps b64 duplicate_key P) where
    Step-kept : {u v : Db} → Step u v → P u → P v
    Step-kept (upserting codec now id field value key_ttl field_ttl hot old db) h =
        upsert-kept b64 duplicate_key P keeps now codec id field value key_ttl field_ttl hot old db
          h
    Step-kept (renaming now old new db) h = keeps.renaming now db old new h
    Step-kept (removing now id field db) h = keeps.removing now db id field h
    Step-kept (deleting now id db) h = keeps.deleting now db id h
    Step-kept (expiring now id ttl db) h = expire-kept b64 duplicate_key P keeps now id ttl db h
    Step-kept (ticking now db) h = keeps.ticking now db h

    Reach-kept : {db u : Db} → Reach db u → P db → P u
    Reach-kept here h = h
    Reach-kept (next r step) h = Step-kept step (Reach-kept r h)

  -- Whatever calls and ticks have run, on tables where it was so before, no session is twice in the one table, and no field of a session
  -- is twice in the other.
  pub Reach-HasKeys : {db u : Db} → Reach db u → HasKeys db → HasKeys u
  Reach-HasKeys r h = Reach-kept HasKeys (keys-Keeps b64 duplicate_key) r h
