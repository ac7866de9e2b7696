-- ===== src/Store/Layered/Coherence.antt =====
-- src/store/layered/mod.rs over a hot store that meets the contract and the Postgres store: what a
-- layered call makes of one before it.
use ruts.Prelude.{
  ℕ, ◌≤◌, String, ◌≡◌, true, Option, none, some, ℤ, arith, Option-cases, inl, inr, eq_iff, [],
}
use ruts.Outcome.{ok}
use ruts.HashMap
use ruts.HashMap.{HashMap, map_option, get-remove}
use ruts.SessionId.{SessionId, Base64, to_string}
use ruts.Store.Codec.{Codec, Bytes, serialize_value, deserialize_value}
use ruts.Store.Contract.{Timed, at, View, Meets}
use ruts.Store.Trait.{SessionStore}
use ruts.Store.LayeredTrait.{LayeredHotStore}
use ruts.Store.Join.{Race}
use ruts.Store.Layered
use ruts.Store.Layered.{hot_ttl}
use ruts.Store.Postgres
use ruts.Store.Postgres.Tables.{FieldRow, Db}
use ruts.Store.Postgres.Queries.{current_rows, get_all_with_meta}
use ruts.Store.Postgres.Traits.{postgres_store, postgres_meta}
use ruts.Store.Postgres.View.{shown}
use ruts.Store.Postgres.Writes.{shown-set_with_meta}
use ruts.Store.Postgres.Erasure.{delete-answers}
use ruts.Store.Postgres.Upserts.{lasts, lasts-nonzero}

module _ (b64 : Base64) (duplicate_key : String) (hot : Timed) (v : View hot.State)
    (meets : Meets b64 hot v) (warm : (t : ℕ) → LayeredHotStore (at hot t)) (race : Race) where
  -- the store that is layered over the two at an instant
  abbrev layered : ℕ → SessionStore
  layered t =
      Layered.layered_store (at hot t) (postgres_store b64 duplicate_key t) (warm t)
        (postgres_meta b64 duplicate_key t) race

  module _ {T : Type 0} (codec : Codec T) (now later : ℕ) (order : now ≤ later) (h : hot.State)
      (db : Db) (valid : v.IsValid h) (id : SessionId) (field : String) where
    -- a field that the hot store shows is read there
    hit :
        (h' : hot.State) (value : T) (bytes : Bytes)
        → v.view later h' id field ≡ some bytes
        → deserialize_value codec bytes ≡ ok value
        → hot.get later codec id field h' ≡ (ok (some value), h')
    hit h' value bytes seen decodes = ground (arith, meets.get-view codec later id field h')

    miss :
        (h' : hot.State)
        → v.view later h' id field ≡ none
        → hot.get later codec id field h' ≡ (ok none, h')
    miss h' unseen = ground (arith, meets.get-view codec later id field h')

    -- a session that Postgres has deleted has no rows there
    rows-delete : current_rows b64 later id (Postgres.delete b64 duplicate_key now id db).1 ≡ []
    unfolding Postgres.delete current_rows
    rows-delete =
        let key = to_string b64 id in
        elim (Option-cases (HashMap.get db.sessions key)) [
          | inl e ↦ ground arith
          | inr (session, e) ↦ ground (arith, get-remove db.sessions key key, eq_iff key key)
        ]

    -- Over a hot store that meets the contract, and Postgres: `set` of a value that is encoded, with
    -- lifetimes in the cache, of the session and of the field that have not ended by then, succeeds;
    -- a later layered `get` reads the value, which the cold store shows too.
    pub layered-get-set :
        (value : T) (key_ttl field_ttl : ℤ) (cached : Option ℤ) (bytes : Bytes)
        → serialize_value codec value ≡ ok bytes
        → deserialize_value codec bytes ≡ ok value
        → v.lasts now (hot_ttl field_ttl cached) later ≡ true
        → lasts now key_ttl later ≡ true
        → lasts now field_ttl later ≡ true
        → (ttl : ℤ) × (h' : hot.State) × (db' : Db) × ((layered now).set codec id field value
              key_ttl field_ttl cached
              (h, db)
            ≡ (ok ttl, (h', db')))
          × (((layered later).get codec id field (h', db')).0 ≡ ok (some value))
          × (map_option (λ (r : FieldRow). r.value) (shown b64 later db' id field) ≡ some bytes)
    unfolding Layered.set Layered.get
    layered-get-set value key_ttl field_ttl cached bytes encoded decodes hot_lasts key_lasts
          field_lasts =
        let ttl = hot_ttl field_ttl cached in
        let k = lasts-nonzero now later key_ttl order key_lasts in
        let l = lasts-nonzero now later field_ttl order field_lasts in
        let (n, h', taken, above, seen, kept, only, known, valid') =
          meets.set-view codec now later id field value ttl ttl none bytes h valid order encoded
            hot_lasts hot_lasts in
        let (m, db', stored, row, others, sessions) =
          shown-set_with_meta b64 duplicate_key now later codec db id field value key_ttl field_ttl
            (some ttl) bytes k l encoded key_lasts in
        (
          m,
          h',
          db',
          ground arith,
          ground (arith, hit h' value bytes seen decodes),
          ground (arith, row),
        )

    -- After a layered `delete`, a layered `get` of any field of the session finds nothing, whatever
    -- the two stores held.
    pub layered-get-delete :
        ((layered later).get codec id field ((layered now).delete id (h, db)).1).0 ≡ ok none
    unfolding Layered.delete Layered.get
    layered-get-delete =
        let (done, h', deleted, empty, only, valid') =
          meets.delete-view now later id h valid order in
        let (gone_too, answered) = delete-answers b64 duplicate_key now id db in
        let db' = (Postgres.delete b64 duplicate_key now id db).1 in
        let none_there = miss h' (empty field) in
        let no_rows = rows-delete in unfold get_all_with_meta in ground (arith, eq_iff field field)
