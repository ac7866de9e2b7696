-- ===== src/Store/Layered/Warming.antt =====
-- src/store/layered/mod.rs: reads, and what they put in the hot store.
use ruts.Prelude.{
  String, ◌≡◌, refl, ℤ, Option, none, some, List, [], ◌∷◌, arith, str_eq, eq_iff, Option-cases, inl,
  inr, if◌then◌else◌,
}
use ruts.Outcome.{Result, ok, err, panic, and_then}
use ruts.HashMap
use ruts.HashMap.{HashMap}
use ruts.SessionId.{SessionId}
use ruts.Store.Codec.{Error, Bytes, Codec}
use ruts.Store.SessionMap.{SessionMap}
use ruts.Store.Trait.{SessionStore}
use ruts.Store.LayeredTrait.{LayeredHotStore, LayeredColdStore, Pair}
use ruts.Store.Join.{Race}
use ruts.Store.Layered.{is_zero, pairs_to_cache, get, get_all}

-- what a list of pairs says of a field
abbrev pub find_pair : String → List Pair → Option (Bytes × Option ℤ)
find_pair key [] = none
find_pair key ((k, v, ttl) ∷ ps) = if str_eq k key then some (v, ttl) else find_pair key ps

-- a field with its lifetime in the hot store, if that is not 0
abbrev pub chosen : Option Bytes → Option (Option ℤ) → Option (Bytes × Option ℤ)
chosen none ttl = none
chosen (some v) none = none
chosen (some v) (some ttl) = if is_zero ttl then none else some (v, ttl)

-- the answer for the other fields, if there is one for all
pub rest_ok :
    (key : String) (v : Bytes) (fields : HashMap Bytes) (ttls : HashMap (Option ℤ)) (ps : List Pair)
    (ttl : Option ℤ)
    → HashMap.get ttls key ≡ some ttl
    → pairs_to_cache ((key, v) ∷ fields) ttls ≡ ok ps
    → (rest : List Pair) × (pairs_to_cache fields ttls ≡ ok rest)
      × (ps ≡ (if is_zero ttl then rest else (key, v, ttl) ∷ rest))
rest_ok key v fields ttls ps ttl e h = go (pairs_to_cache fields ttls) refl
  where
    opened :
        (r : Result Error (List Pair))
        → pairs_to_cache fields ttls ≡ r
        → and_then r (λ rest. ok (if is_zero ttl then rest else (key, v, ttl) ∷ rest)) ≡ ok ps
    opened r p = unfold pairs_to_cache in ground arith

    go :
        (r : Result Error (List Pair))
        → pairs_to_cache fields ttls ≡ r
        → (rest : List Pair) × (pairs_to_cache fields ttls ≡ ok rest)
          × (ps ≡ (if is_zero ttl then rest else (key, v, ttl) ∷ rest))
    go (ok rest) p = (rest, p, ground (arith, opened (ok rest) p))
    go (err x) p = absurd (ground (arith, opened (err x) p))
    go panic p = absurd (ground (arith, opened panic p))

-- One field without an entry among the lifetimes makes the whole call panic.
pub pairs_to_cache-panics :
    (fields : HashMap Bytes) (ttls : HashMap (Option ℤ)) (key : String) (v : Bytes)
    → HashMap.get fields key ≡ some v
    → HashMap.get ttls key ≡ none
    → pairs_to_cache fields ttls ≡ panic
unfolding pairs_to_cache HashMap.get
pairs_to_cache-panics [] ttls key v here absent = absurd (ground arith)
pairs_to_cache-panics ((k, w) ∷ fields) ttls key v here absent =
    elim (Option-cases (HashMap.get ttls k)) [
      | inl e ↦ ground arith
      | inr (ttl, e) ↦ ground (arith, eq_iff k key, pairs_to_cache-panics fields ttls key v)
    ]

module _ (hot cold : SessionStore) (warm : LayeredHotStore hot) (meta : LayeredColdStore cold)
    (race : Race) where
  module _ {T : Type 0} (codec : Codec T) (id : SessionId) (field : String) (h : hot.State)
      (c : cold.State) where
    -- A value that the hot store has is returned, and the cold store is not asked.
    pub get_hit :
        (value : T) (h' : hot.State)
        → hot.get codec id field h ≡ (ok (some value), h')
        → get hot cold warm meta race codec id field (h, c) ≡ (ok (some value), (h', c))
    unfolding get
    get_hit value h' e = ground arith

    -- Where the hot store has nothing and one of the fields in the cold store's answer has no entry
    -- among the lifetimes, `get` panics, whatever field it was asked for.
    pub get-panics :
        (found : SessionMap) (ttls : HashMap (Option ℤ)) (h' : hot.State) (c' : cold.State)
        (key : String) (v : Bytes)
        → hot.get codec id field h ≡ (ok none, h')
        → meta.get_all_with_meta id c ≡ (ok (some (found, ttls)), c')
        → HashMap.get found.fields key ≡ some v
        → HashMap.get ttls key ≡ none
        → get hot cold warm meta race codec id field (h, c) ≡ (panic, (h', c'))
    unfolding get
    get-panics found ttls h' c' key v missed answered here absent =
        ground (arith, pairs_to_cache-panics found.fields ttls key v here absent)

  -- `get_all` asks the cold store alone, and returns its answer once the hot store has taken the
  -- pairs; the lifetimes decide only what is cached.
  pub get_all-cold :
      (id : SessionId) (h h' : hot.State) (c c' : cold.State) (found : SessionMap)
      (ttls : HashMap (Option ℤ)) (pair : Pair) (pairs : List Pair) (n : ℤ)
      → meta.get_all_with_meta id c ≡ (ok (some (found, ttls)), c')
      → pairs_to_cache found.fields ttls ≡ ok (pair ∷ pairs)
      → warm.set_multiple id (pair ∷ pairs) h ≡ (ok n, h')
      → get_all hot cold warm meta race id (h, c) ≡ (ok (some found), (h', c'))
  unfolding get_all
  get_all-cold id h h' c c' found ttls pair pairs n answered chosen_pairs cached = ground arith
