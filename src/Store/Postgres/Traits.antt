-- ===== src/Store/Postgres/Traits.antt =====
-- src/store/postgres/mod.rs: `PostgresStore` as a `SessionStore` and a `LayeredColdStore`.
use ruts.Prelude.{ℕ, String, ℤ, Option, none, some}
use ruts.Outcome.{Action}
use ruts.SessionId.{SessionId, Base64}
use ruts.Store.Codec.{Error, Codec}
use ruts.Store.Trait.{SessionStore}
use ruts.Store.LayeredTrait.{LayeredColdStore}
use ruts.Store.Postgres
use ruts.Store.Postgres.Queries
use ruts.Store.Postgres.Tables.{Db}

module _ (b64 : Base64) (duplicate_key : String) (now : ℕ) where
  module _ {T : Type 0} (codec : Codec T) where
    unfoldable pub set : SessionId → String → T → ℤ → ℤ → Option ℤ → Action Db Error ℤ
    unfolding Postgres.upsert
    set session_id field value key_ttl_secs field_ttl_secs _ =
        Postgres.upsert b64 duplicate_key now codec session_id field value key_ttl_secs
          field_ttl_secs none none

    unfoldable pub set_and_rename :
        SessionId → SessionId → String → T → ℤ → ℤ → Option ℤ → Action Db Error ℤ
    unfolding Postgres.upsert
    set_and_rename old_session_id new_session_id field value key_ttl_secs field_ttl_secs _ =
        Postgres.upsert b64 duplicate_key now codec new_session_id field value key_ttl_secs
          field_ttl_secs none (some old_session_id)

    unfoldable pub set_with_meta : SessionId → String → T → ℤ → ℤ → Option ℤ → Action Db Error ℤ
    unfolding Postgres.upsert
    set_with_meta session_id field value key_ttl_secs field_ttl_secs hot_cache_ttl_secs =
        Postgres.upsert b64 duplicate_key now codec session_id field value key_ttl_secs
          field_ttl_secs hot_cache_ttl_secs none

    unfoldable pub set_and_rename_with_meta :
        SessionId → SessionId → String → T → ℤ → ℤ → Option ℤ → Action Db Error ℤ
    unfolding Postgres.upsert
    set_and_rename_with_meta old_session_id new_session_id field value key_ttl_secs field_ttl_secs
          hot_cache_ttl_secs =
        Postgres.upsert b64 duplicate_key now codec new_session_id field value key_ttl_secs
          field_ttl_secs hot_cache_ttl_secs (some old_session_id)

  abbrev pub postgres_store : SessionStore
  postgres_store = record {
    State = Db;
    get = λ codec. Queries.get b64 now codec;
    get_all = Queries.get_all b64 now;
    set = λ codec. set codec;
    set_and_rename = λ codec. set_and_rename codec;
    rename_session_id = Postgres.rename_session_id b64 duplicate_key now;
    remove = Postgres.remove b64 duplicate_key now;
    delete = Postgres.delete b64 duplicate_key now;
    expire = Queries.expire b64 now duplicate_key;
  }

  abbrev pub postgres_meta : LayeredColdStore postgres_store
  postgres_meta = record {
    get_all_with_meta = Queries.get_all_with_meta b64 now;
    set_with_meta = λ codec. set_with_meta codec;
    set_and_rename_with_meta = λ codec. set_and_rename_with_meta codec;
  }
