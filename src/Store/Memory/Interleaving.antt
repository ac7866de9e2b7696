-- ===== src/Store/Memory/Interleaving.antt =====
-- src/store/memory/mod.rs, with other threads at work: the accesses to the concurrent map that a method
-- makes one after the other, in any interleaving with those of other threads. An access holds the lock
-- of its entry; `cleanup_expired`, which goes from entry to entry, is taken as one.
use ruts.Prelude.{
  ℕ, ◌≤◌, String, ◌≡◌, ◌≢◌, refl, true, false, ◌&&◌, Option, none, some, List, [], ◌∷◌, All, ℤ, pos,
  arith, str_eq, if◌then◌else◌,
}
use ruts.Outcome.{ok}
use ruts.HashMap
use ruts.HashMap.{HashMap, keep_if, is_empty, get-remove, get-insert, get-of_is_empty}
use ruts.DashMap.{DashMap}
use ruts.SessionId.{SessionId, Base64, to_string, same_session}
use ruts.Store.Codec.{Codec, Bytes, serialize_value}
use ruts.Store.Memory.Expiry.{StoredValue, Fields, Clock, is_live, determine_expiry, or_default}
use ruts.Store.Memory.{cleanup_expired, set}
use ruts.Store.Memory.View.{
  visible, visible-cleanup_expired, visible-insert, visible-same, visible-or_default,
}

pub data Access : Type 0 where
  -- `cleanup_expired` at an instant
  sweeping : ℕ → Access
  -- `entry`, `or_default` and `insert`, up to the `drop` of the guard
  putting : SessionId → String → StoredValue → Access
  -- `get_mut` and the `remove` of a field, up to the `drop` of the guard
  taking : SessionId → String → Access
  -- the `remove` of a session
  dropping : SessionId → Access

-- an access of `set`, with its sweep no later than an instant
abbrev pub IsSetting : ℕ → Access → Type 0
IsSetting t (sweeping now) = now ≤ t
IsSetting t (putting id field v) = Unit
IsSetting t (taking id field) = true ≡ false
IsSetting t (dropping id) = true ≡ false

module _ (b64 : Base64) (dash : DashMap Fields) where
  -- the access of `set` to its session
  unfoldable pub put_field : SessionId → String → StoredValue → dash.Table → dash.Table
  unfolding or_default to_string HashMap.insert
  put_field id field v table =
      let key = to_string b64 id in
      dash.insert key (HashMap.insert field v (or_default (dash.get table key))) table

  -- the first access of `remove` to its session
  unfoldable pub take_field : SessionId → String → dash.Table → dash.Table
  unfolding to_string HashMap.remove
  take_field id field table =
      let key = to_string b64 id in
      elim (dash.get table key) [
        | none ↦ table
        | some fields ↦ dash.insert key (HashMap.remove field fields) table
      ]

  unfoldable pub access : Access → dash.Table → dash.Table
  unfolding cleanup_expired put_field take_field to_string
  access (sweeping now) table = cleanup_expired b64 dash now table
  access (putting id field v) table = put_field id field v table
  access (taking id field) table = take_field id field table
  access (dropping id) table = dash.remove (to_string b64 id) table

  -- the accesses of any number of threads, in the order in which they are made
  unfoldable pub run : List Access → dash.Table → dash.Table
  unfolding access
  run [] table = table
  run (a ∷ rest) table = run rest (access a table)

  -- what the last of some puts leaves in a field, if there is one
  abbrev pub last_put :
      ℕ → SessionId → String → List Access → Option StoredValue → Option StoredValue
  last_put t j f [] before = before
  last_put t j f (putting id field v ∷ rest) before =
      last_put t j f rest
        (if same_session b64 id j && str_eq field f then keep_if (is_live t) (some v) else before)
  last_put t j f (sweeping now ∷ rest) before = last_put t j f rest before
  last_put t j f (taking id field ∷ rest) before = last_put t j f rest before
  last_put t j f (dropping id ∷ rest) before = last_put t j f rest before

  pub visible-putting :
      (t : ℕ) (id : SessionId) (field : String) (v : StoredValue) (table : dash.Table)
      (j : SessionId) (f : String)
      → visible b64 dash t (access (putting id field v) table) j f ≡ (
          if same_session b64 id j && str_eq field f
          then keep_if (is_live t) (some v)
          else visible b64 dash t table j f)
  unfolding access or_default
  visible-putting t id field v table j f =
      let fields = or_default (dash.get table (to_string b64 id)) in
      ground (
        arith,
        visible-insert b64 dash t id (HashMap.insert field v fields) table j f,
        visible-same b64 dash t table id j f,
        get-insert fields field f v,
        visible-or_default b64 dash t table id f,
      )

  -- Any interleaving of the accesses, which are sweeps and puts, of any number of `set`s whose two
  -- lifetimes are not 0, seen from an instant not before their sweeps: each field of each session
  -- has the value of the last put to it, if it has not expired, and is as it was where there is no
  -- put. No such `set` undoes another one, or a sweep such a `set`.
  pub visible-run :
      (t : ℕ) (accesses : List Access) (table : dash.Table) (j : SessionId) (f : String)
      → All (IsSetting t) accesses
      → visible b64 dash t (run accesses table) j f
        ≡ last_put t j f accesses (visible b64 dash t table j f)
  unfolding run
  visible-run t [] table j f h = refl
  visible-run t (sweeping now ∷ rest) table j f (order, later) =
      rw (visible-run t rest (access (sweeping now) table) j f later)
        (unfold access in rw (visible-cleanup_expired b64 dash now t table j f order) refl)
  visible-run t (putting id field v ∷ rest) table j f (one, later) =
      rw
        (
          visible-run t rest (access (putting id field v) table) j f later,
          visible-putting t id field v table j f,
        )
        refl
  visible-run t (taking id field ∷ rest) table j f (never, later) = absurd (ground arith)
  visible-run t (dropping id ∷ rest) table j f (never, later) = absurd (ground arith)

  -- The accesses of a `set` alone: with lifetimes other than 0 and a value that is encoded it sweeps
  -- and puts.
  pub set-run :
      {T : Type 0} (codec : Codec T) (clock : Clock) (id : SessionId) (field : String) (value : T)
      (key_ttl field_ttl : ℤ) (hot : Option ℤ) (bytes : Bytes) (table : dash.Table)
      → key_ttl ≢ pos 0
      → field_ttl ≢ pos 0
      → serialize_value codec value ≡ ok bytes
      → (set b64 dash codec clock id field value key_ttl field_ttl hot table).1
        ≡ run
            (sweeping clock.swept
              ∷ putting id field (record {
                bytes = bytes;
                expires_at = determine_expiry clock.stored key_ttl field_ttl;
              })
              ∷ [])
            table
  unfolding set run
  set-run codec clock id field value key_ttl field_ttl hot bytes table k l encoded = ground arith
