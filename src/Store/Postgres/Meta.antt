-- ===== src/Store/Postgres/Meta.antt =====
-- src/store/postgres/mod.rs and src/store/layered/mod.rs: what `get_all_with_meta` says of a field,
-- and what the layered store makes of a field that does not expire.
use ruts.Prelude.{ℕ, String, ◌≡◌, Option, none, some, ℤ, arith}
use ruts.Outcome.{ok, panic}
use ruts.HashMap
use ruts.HashMap.{
  HashMap, is_empty, keep_if, map_option, bind_option, get-retain, get-map_values,
  get-filter_map_values, get-of_is_empty,
}
use ruts.SessionId.{SessionId, Base64}
use ruts.Store.Codec.{Codec}
use ruts.Store.SessionMap.{SessionMap}
use ruts.Store.Trait.{SessionStore}
use ruts.Store.LayeredTrait.{LayeredHotStore}
use ruts.Store.Join.{Race}
use ruts.Store.Layered
use ruts.Store.Layered.Warming.{get-panics}
use ruts.Store.Postgres.Queries.{current_rows, get_all_with_meta, meta_of}
use ruts.Store.Postgres.Tables.{FieldRow, Db}
use ruts.Store.Postgres.Traits.{postgres_store, postgres_meta}

module _ (b64 : Base64) (duplicate_key : String) (now : ℕ) where
  -- `get_all_with_meta` of a session with a current field returns the values of the current rows, and
  -- the lifetimes of those of them that end in at least half a second.
  pub get_all_with_meta_lem :
      (id : SessionId) (db : Db) (field : String) (row : FieldRow)
      → HashMap.get (current_rows b64 now id db) field ≡ some row
      → (found : SessionMap) × (ttls : HashMap (Option ℤ)) × (get_all_with_meta b64 now id db
          ≡ (ok (some (found, ttls)), db))
        × ((f : String)
            → HashMap.get found.fields f
              ≡ map_option (λ (r : FieldRow). r.value) (HashMap.get (current_rows b64 now id db) f))
        × ((f : String)
            → HashMap.get ttls f
              ≡ bind_option (meta_of now) (HashMap.get (current_rows b64 now id db) f))
  unfolding get_all_with_meta
  get_all_with_meta_lem id db field row here =
      let rows = current_rows b64 now id db in
      (
        record { fields = HashMap.map_values (λ (r : FieldRow). r.value) rows },
        HashMap.filter_map_values (meta_of now) rows,
        ground (arith, get-of_is_empty rows field),
        λ f. get-map_values _ rows f,
        λ f. get-filter_map_values (meta_of now) rows f,
      )

  -- Over Postgres, a layered `get` that misses in its hot store panics for every session that has
  -- a current field without expiry, whatever field was asked for.
  pub layered_get-persistent :
      (hot : SessionStore) (warm : LayeredHotStore hot) (race : Race) {T : Type 0} (codec : Codec T)
      (id : SessionId) (asked field : String) (h h' : hot.State) (db : Db) (row : FieldRow)
      → hot.get codec id asked h ≡ (ok none, h')
      → HashMap.get (current_rows b64 now id db) field ≡ some row
      → row.expires_at ≡ none
      → Layered.get hot
          (postgres_store b64 duplicate_key now)
          warm
          (postgres_meta b64 duplicate_key now)
          race
          codec
          id
          asked
          (h, db)
        ≡ (panic, (h', db))
  layered_get-persistent hot warm race codec id asked field h h' db row missed here unending =
      let (found, ttls, answered, values, lifetimes) = get_all_with_meta_lem id db field row here in
      get-panics hot (postgres_store b64 duplicate_key now) warm
        (postgres_meta b64 duplicate_key now) race codec id asked h db found ttls h' db field
        row.value missed answered (ground (arith, values field, here))
        (unfold meta_of in ground (arith, lifetimes field, here))
