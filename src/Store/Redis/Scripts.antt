-- ===== src/Store/Redis/Scripts.antt =====
-- src/store/redis/mod.rs: `insert_update`, with the loading of a script before its first call, and its
-- two callers. The client's commands for scripts (`fred`) and the server's cache of scripts are a
-- record; the hashes that a store keeps are those of its two `OnceCell`s.
use ruts.Prelude.{
  String, ℤ, ◌≡◌, Bool, true, false, Option, none, some, arith, if◌then◌else◌, List, [], ◌∷◌, map,
  Option-cases, Bool-cases, inl, inr, refl,
}
use ruts.Outcome.{Result, ok, err, panic, Action, map_err}
use ruts.SessionId.{SessionId, Base64, to_string}
use ruts.Store.Codec.{Error, backend, Bytes, Codec, serialize_value}
use ruts.Store.Redis as Methods
use ruts.Store.Redis.Server.{Redis}
use ruts.Store.Redis.Lua.{set_script, set_and_rename_script}

-- `SET_SCRIPT` and `SET_AND_RENAME_SCRIPT`, the texts
pub data Script : Type 0 where
  set_source set_and_rename_source : Script

-- `SET_SCRIPT_HASH` and `SET_AND_RENAME_SCRIPT_HASH`
pub data Cell : Type 0 where
  set_script_hash set_and_rename_script_hash : Cell

-- `sha1_hash`, SCRIPT EXISTS and SCRIPT LOAD. The server keeps a script under its hash, which is not
-- the hash of the other one; a script that has been loaded is there, and the others stay. `no_script`
-- is the reply of EVALSHA for a hash that is not there, `failed` the one of a script that misses a key.
pub record ScriptCache : Type 1 where
  pub State : Type 0
  pub sha1_hash : Script → String
  pub loaded : String → State → Option Script
  pub script_load : Script → State → State
  pub no_script : String
  pub failed : String
  pub loaded-own :
      (script other : Script) (s : State)
      → loaded (sha1_hash script) s ≡ some other
      → other ≡ script
  pub loaded-load :
      (script : Script) (s : State) → loaded (sha1_hash script) (script_load script s) ≡ some script
  pub loaded-kept :
      (script other : Script) (hash : String) (s : State)
      → loaded hash s ≡ some other
      → loaded hash (script_load script s) ≡ some other

abbrev pub is_some {ℓ} : {A : Type ℓ} → Option A → Bool
is_some none = false
is_some (some a) = true

module _ (redis : Redis) (cache : ScriptCache) where
  -- the hashes that the cells hold, the server's scripts, and its data
  pub record Loaded : Type 0 where
    pub set_hash : Option String
    pub rename_hash : Option String
    pub scripts : cache.State
    pub keys : redis.State

  abbrev pub held : Cell → Loaded → Option String
  held set_script_hash s = s.set_hash
  held set_and_rename_script_hash s = s.rename_hash

  abbrev pub fill : Cell → String → Loaded → Loaded
  fill set_script_hash hash s = record s { set_hash = some hash }
  fill set_and_rename_script_hash hash s = record s { rename_hash = some hash }

  -- `get_or_try_init`
  unfoldable pub get_or_load : Cell → Script → Loaded → String × Loaded
  get_or_load once_cell script s = elim (held once_cell s) [
    | some hash ↦ (hash, s)
    | none ↦
        let hash = cache.sha1_hash script in
        let scripts =
          if is_some (cache.loaded hash s.scripts)
          then s.scripts
          else cache.script_load script s.scripts in
        (hash, fill once_cell hash (record s { scripts = scripts }))
  ]

  -- ARGV of the two scripts
  pub record Argv : Type 0 where
    pub field : String
    pub value : Bytes
    pub key_ttl : ℤ
    pub field_ttl : ℤ

  -- what a script does with KEYS and ARGV
  unfoldable pub run_script :
      Script → List String → Argv → redis.State → Result String ℤ × redis.State
  run_script set_source [] a keys = (err cache.failed, keys)
  run_script set_source (key ∷ rest) a keys =
      let (ttl, keys') = set_script redis key a.field a.value a.key_ttl a.field_ttl keys in
      (ok ttl, keys')
  run_script set_and_rename_source [] a keys = (err cache.failed, keys)
  run_script set_and_rename_source (old ∷ []) a keys = (err cache.failed, keys)
  run_script set_and_rename_source (old ∷ new ∷ rest) a keys =
      set_and_rename_script redis old new a.field a.value a.key_ttl a.field_ttl keys

  -- EVALSHA: the server runs the script that it has under the hash
  unfoldable pub evalsha : String → List String → Argv → Action Loaded Error ℤ
  unfolding run_script
  evalsha hash keys a s = elim (cache.loaded hash s.scripts) [
    | none ↦ (err (backend cache.no_script), s)
    | some script ↦
        let (r, left) = run_script script keys a s.keys in
        (map_err backend r, record s { keys = left })
  ]

  module _ (b64 : Base64) {T : Type 0} (codec : Codec T) where
    unfoldable pub insert_update :
        List SessionId → String → T → ℤ → ℤ → Cell → Script → Action Loaded Error ℤ
    unfolding get_or_load evalsha to_string
    insert_update session_ids field value key_ttl_secs field_ttl_secs once_cell script s =
        let (hash, s') = get_or_load once_cell script s in
        elim (serialize_value codec value) [
          | err e ↦ (err e, s')
          | panic ↦ (panic, s')
          | ok bytes ↦
              evalsha hash (map (to_string b64) session_ids)
                (record {
                  field = field;
                  value = bytes;
                  key_ttl = key_ttl_secs;
                  field_ttl = field_ttl_secs;
                })
                s'
        ]

    unfoldable pub set : SessionId → String → T → ℤ → ℤ → Action Loaded Error ℤ
    unfolding insert_update
    set session_id field value key_ttl_secs field_ttl_secs =
        insert_update (session_id ∷ []) field value key_ttl_secs field_ttl_secs set_script_hash
          set_source

    unfoldable pub set_and_rename :
        SessionId → SessionId → String → T → ℤ → ℤ → Action Loaded Error ℤ
    unfolding insert_update
    set_and_rename old_session_id new_session_id field value key_ttl_secs field_ttl_secs =
        insert_update (old_session_id ∷ new_session_id ∷ []) field value key_ttl_secs field_ttl_secs
          set_and_rename_script_hash set_and_rename_source

  -- a cell is empty, or the server has its script under the hash
  abbrev pub IsReadyCell : Script → Option String → cache.State → Type 0
  IsReadyCell script none scripts = Unit
  IsReadyCell script (some hash) scripts = cache.loaded hash scripts ≡ some script

  pub record IsReady (s : Loaded) : Type 0 where
    pub set_ready : IsReadyCell set_source s.set_hash s.scripts
    pub rename_ready : IsReadyCell set_and_rename_source s.rename_hash s.scripts

  -- the answer of a call and the data that it leaves
  abbrev pub seen : Result Error ℤ × Loaded → Result Error ℤ × redis.State
  seen (r, s) = (r, s.keys)

  -- a cell stays ready when a script is loaded
  kept-IsReadyCell :
      (script loading : Script) (cell : Option String) (scripts : cache.State)
      → IsReadyCell script cell scripts
      → IsReadyCell script cell (cache.script_load loading scripts)
  kept-IsReadyCell script loading none scripts h = tt
  kept-IsReadyCell script loading (some hash) scripts h =
      cache.loaded-kept loading script hash scripts h

  abbrev ensured : Script → cache.State → cache.State
  ensured script scripts =
      if is_some (cache.loaded (cache.sha1_hash script) scripts)
      then scripts
      else cache.script_load script scripts

  ensured-loaded :
      (script : Script) (scripts : cache.State)
      → cache.loaded (cache.sha1_hash script) (ensured script scripts) ≡ some script
  ensured-loaded script scripts =
      elim (Option-cases (cache.loaded (cache.sha1_hash script) scripts)) [
        | inl e ↦ ground (arith, cache.loaded-load script scripts)
        | inr (other, e) ↦ ground (arith, cache.loaded-own script other scripts e)
      ]

  ensured-IsReadyCell :
      (script loading : Script) (cell : Option String) (scripts : cache.State)
      → IsReadyCell script cell scripts
      → IsReadyCell script cell (ensured loading scripts)
  ensured-IsReadyCell script loading cell scripts h =
      elim (Bool-cases (is_some (cache.loaded (cache.sha1_hash loading) scripts))) [
        | inl e ↦ rw e h
        | inr e ↦ rw e (kept-IsReadyCell script loading cell scripts h)
      ]

  abbrev own_cell : Script → Cell
  own_cell set_source = set_script_hash
  own_cell set_and_rename_source = set_and_rename_script_hash

  -- after a script's own cell is asked for, the server has the script under the hash
  get_or_load-IsReady :
      (script : Script) (s : Loaded)
      → IsReady s
      → (cache.loaded
            (get_or_load (own_cell script) script s).0
            (get_or_load (own_cell script) script s).1.scripts
          ≡ some script)
        × ((get_or_load (own_cell script) script s).1.keys ≡ s.keys)
        × IsReady (get_or_load (own_cell script) script s).1
  unfolding get_or_load
  get_or_load-IsReady set_source s h = elim (Option-cases s.set_hash) [
    | inr (hash, e) ↦ rw e (ground (arith, h.set_ready), refl, h)
    | inl e ↦ rw e (
      ensured-loaded set_source s.scripts,
      refl,
      record {
        set_ready = ensured-loaded set_source s.scripts;
        rename_ready =
            ensured-IsReadyCell set_and_rename_source set_source s.rename_hash s.scripts
              h.rename_ready;
      },
    )
  ]
  get_or_load-IsReady set_and_rename_source s h = elim (Option-cases s.rename_hash) [
    | inr (hash, e) ↦ rw e (ground (arith, h.rename_ready), refl, h)
    | inl e ↦ rw e (
      ensured-loaded set_and_rename_source s.scripts,
      refl,
      record {
        set_ready =
            ensured-IsReadyCell set_source set_and_rename_source s.set_hash s.scripts h.set_ready;
        rename_ready = ensured-loaded set_and_rename_source s.scripts;
      },
    )
  ]

  IsReady-same :
      (u v : Loaded)
      → u.set_hash ≡ v.set_hash
      → u.rename_hash ≡ v.rename_hash
      → u.scripts ≡ v.scripts
      → IsReady v
      → IsReady u
  IsReady-same u v one two three h = record {
    set_ready = rw (one, three) (h.set_ready);
    rename_ready = rw (two, three) (h.rename_ready);
  }

  module _ (b64 : Base64) {T : Type 0} (codec : Codec T) where
    -- what is sent leaves the cells and the scripts
    insert_update-kept :
        (ids : List SessionId) (field : String) (value : T) (key_ttl field_ttl : ℤ)
        (script : Script) (s : Loaded)
        → ((insert_update b64 codec ids field value key_ttl field_ttl
              (own_cell script)
              script
              s).1.set_hash
            ≡ (get_or_load (own_cell script) script s).1.set_hash)
          × ((insert_update b64 codec ids field value key_ttl field_ttl
                (own_cell script)
                script
                s).1.rename_hash
              ≡ (get_or_load (own_cell script) script s).1.rename_hash)
          × ((insert_update b64 codec ids field value key_ttl field_ttl
                (own_cell script)
                script
                s).1.scripts
              ≡ (get_or_load (own_cell script) script s).1.scripts)
    unfolding insert_update evalsha
    insert_update-kept ids field value key_ttl field_ttl script s =
        (ground arith, ground arith, ground arith)

    insert_update-IsReady :
        (ids : List SessionId) (field : String) (value : T) (key_ttl field_ttl : ℤ)
        (script : Script) (s : Loaded)
        → IsReady s
        → IsReady
            (insert_update b64 codec ids field value key_ttl field_ttl (own_cell script) script s).1
    insert_update-IsReady ids field value key_ttl field_ttl script s h =
        let (one, two, three) = insert_update-kept ids field value key_ttl field_ttl script s in
        let (there, same, ready) = get_or_load-IsReady script s h in
        IsReady-same _ _ one two three ready

    -- Where each of the two cells is empty or has a hash under which the server has the cell's own
    -- script: `set` and `set_and_rename`, which load their script if need be and run by its hash what
    -- the server has there, answer and leave the data as the scripts' own methods do, and leave the
    -- cells and the server so that the next call finds its script too.
    pub calls-run :
        (old id : SessionId) (field : String) (value : T) (key_ttl field_ttl : ℤ) (hot : Option ℤ)
        (s : Loaded)
        → IsReady s
        → (seen (set b64 codec id field value key_ttl field_ttl s)
            ≡ Methods.set b64 redis codec id field value key_ttl field_ttl hot s.keys)
          × IsReady (set b64 codec id field value key_ttl field_ttl s).1
          × (seen (set_and_rename b64 codec old id field value key_ttl field_ttl s)
              ≡ Methods.set_and_rename b64 redis codec old id field value key_ttl field_ttl hot
                  s.keys)
          × IsReady (set_and_rename b64 codec old id field value key_ttl field_ttl s).1
    unfolding set set_and_rename insert_update evalsha run_script Methods.set Methods.set_and_rename
    calls-run old id field value key_ttl field_ttl hot s h =
        let (there, same, ready) = get_or_load-IsReady set_source s h in
        let (there', same', ready') = get_or_load-IsReady set_and_rename_source s h in
        (
          ground (arith, there, same),
          insert_update-IsReady (id ∷ []) field value key_ttl field_ttl set_source s h,
          ground (arith, there', same'),
          insert_update-IsReady (old ∷ id ∷ []) field value key_ttl field_ttl set_and_rename_source
              s h,
        )
