-- ===== src/Store/Memory/View.antt =====
-- src/store/memory/mod.rs, as a reader sees it: the value under a session and a field that has not
-- expired at an instant. The laws of the parts that change the map.
use ruts.Prelude.{ℕ, ◌≤◌, String, ◌≡◌, refl, true, Option, none, some, arith, eq_iff, if◌then◌else◌}
use ruts.HashMap
use ruts.HashMap.{HashMap, keep_if, is_empty, get-retain, get-of_is_empty}
use ruts.DashMap.{DashMap, retained}
use ruts.SessionId.{SessionId, Base64, to_string, same_session}
use ruts.Store.Memory.Expiry.{StoredValue, Fields, is_live, sweep, or_default}
use ruts.Store.Memory.{cleanup_expired}

-- the stored value, expired or not
abbrev pub field_of : Option Fields → String → Option StoredValue
field_of none field = none
field_of (some fields) field = HashMap.get fields field

-- A value live later is live now.
pub is_live_mono :
    (now t : ℕ) (v : StoredValue) → now ≤ t → is_live t v ≡ true → is_live now v ≡ true
unfolding is_live
is_live_mono now t v h live = ground arith

keep_if-keep_if :
    (now t : ℕ) (o : Option StoredValue)
    → now ≤ t
    → keep_if (is_live t) (keep_if (is_live now) o) ≡ keep_if (is_live t) o
keep_if-keep_if now t none h = refl
keep_if-keep_if now t (some v) h = ground (arith, is_live_mono now t v h)

-- A swept session shows at a later instant what it showed before.
pub field_of-sweep :
    (now t : ℕ) (o : Option Fields) (field : String)
    → now ≤ t
    → keep_if (is_live t) (field_of (retained (sweep now) o) field)
      ≡ keep_if (is_live t) (field_of o field)
unfolding sweep
field_of-sweep now t none field h = refl
field_of-sweep now t (some fields) field h =
    let kept = HashMap.retain (is_live now) fields in
    ground (
      arith,
      get-retain (is_live now) fields field,
      get-of_is_empty kept field,
      keep_if-keep_if now t (HashMap.get fields field) h,
    )

pub field_of-or_default :
    (o : Option Fields) (field : String) → HashMap.get (or_default o) field ≡ field_of o field
unfolding or_default HashMap.get
field_of-or_default none field = refl
field_of-or_default (some fields) field = refl

module _ (b64 : Base64) (dash : DashMap Fields) where
  unfoldable pub visible : ℕ → dash.Table → SessionId → String → Option StoredValue
  visible t table session_id field =
      keep_if (is_live t) (field_of (dash.get table (to_string b64 session_id)) field)

  pub visible-cleanup_expired :
      (now t : ℕ) (table : dash.Table) (session_id : SessionId) (field : String)
      → now ≤ t
      → visible t (cleanup_expired b64 dash now table) session_id field
        ≡ visible t table session_id field
  unfolding visible cleanup_expired
  visible-cleanup_expired now t table session_id field h =
      rw dash.get-retain (field_of-sweep now t (dash.get table (to_string b64 session_id)) field h)

  -- what a session holds after it is written to the map
  pub visible-insert :
      (t : ℕ) (key : SessionId) (fields : Fields) (table : dash.Table) (j : SessionId)
      (field : String)
      → visible t (dash.insert (to_string b64 key) fields table) j field ≡ (
          if same_session b64 key j
          then keep_if (is_live t) (HashMap.get fields field)
          else visible t table j field)
  unfolding visible
  visible-insert t key fields table j field =
      ground (arith, dash.get-insert table (to_string b64 key) (to_string b64 j) fields)

  pub visible-drop :
      (t : ℕ) (key : SessionId) (table : dash.Table) (j : SessionId) (field : String)
      → visible t (dash.remove (to_string b64 key) table) j field
        ≡ (if same_session b64 key j then none else visible t table j field)
  unfolding visible
  visible-drop t key table j field =
      ground (arith, dash.get-remove table (to_string b64 key) (to_string b64 j))

  -- sessions with one key look alike
  pub visible-same :
      (t : ℕ) (table : dash.Table) (key j : SessionId) (field : String)
      → same_session b64 key j ≡ true
      → visible t table key field ≡ visible t table j field
  unfolding visible
  visible-same t table key j field h = ground (arith, eq_iff (to_string b64 key) (to_string b64 j))

  -- what a session that is not in the map shows
  pub visible-missing :
      (t : ℕ) (table : dash.Table) (j : SessionId) (f : String)
      → dash.get table (to_string b64 j) ≡ none
      → visible t table j f ≡ none
  unfolding visible
  visible-missing t table j f h = ground arith

  pub visible-found :
      (t : ℕ) (table : dash.Table) (j : SessionId) (fields : Fields) (f : String)
      → dash.get table (to_string b64 j) ≡ some fields
      → visible t table j f ≡ keep_if (is_live t) (HashMap.get fields f)
  unfolding visible
  visible-found t table j fields f h = ground arith

  pub visible-or_default :
      (t : ℕ) (table : dash.Table) (j : SessionId) (f : String)
      → visible t table j f
        ≡ keep_if (is_live t) (HashMap.get (or_default (dash.get table (to_string b64 j))) f)
  unfolding visible
  visible-or_default t table j f = rw field_of-or_default
