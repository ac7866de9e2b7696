-- ===== src/HashMap.antt =====
-- `std::collections::HashMap` with text keys, as an association list. No order of entries is
-- promised, and no statement about the program depends on one.
pub mod Keys
use ruts.Prelude.{
  String, ◌≡◌, refl, Bool, true, false, Option, none, some, List, [], ◌∷◌, arith, str_eq, eq_iff,
  if◌then◌else◌,
}

abbrev pub HashMap {ℓ} : Type ℓ → Type ℓ
HashMap V = List (String × V)

-- `filter` of an option, for the law of `retain`
abbrev pub keep_if {ℓ} : {V : Type ℓ} → (V → Bool) → Option V → Option V
keep_if p none = none
keep_if p (some v) = if p v then some v else none

abbrev pub map_option {ℓ κ} : {A : Type ℓ} {B : Type κ} → (A → B) → Option A → Option B
map_option f none = none
map_option f (some a) = some (f a)

module _ {ℓ} {V : Type ℓ} where
  unfoldable pub get : HashMap V → String → Option V
  get [] k = none
  get ((j, v) ∷ m) k = if str_eq j k then some v else get m k

  unfoldable pub remove : String → HashMap V → HashMap V
  remove k [] = []
  remove k ((j, v) ∷ m) = let rest = remove k m in if str_eq j k then rest else (j, v) ∷ rest

  unfoldable pub insert : String → V → HashMap V → HashMap V
  unfolding remove
  insert k v m = (k, v) ∷ remove k m

  -- The keys of a map are distinct, so that `remove j` changes nothing there.
  unfoldable pub retain : (V → Bool) → HashMap V → HashMap V
  unfolding remove
  retain p [] = []
  retain p ((j, v) ∷ m) = let rest = retain p m in if p v then (j, v) ∷ rest else remove j rest

  unfoldable pub retain_keys : (String → Bool) → HashMap V → HashMap V
  retain_keys p [] = []
  retain_keys p ((j, v) ∷ m) = let rest = retain_keys p m in if p j then (j, v) ∷ rest else rest

  abbrev pub values : HashMap V → List V
  values [] = []
  values ((j, v) ∷ m) = v ∷ values m

  abbrev pub is_empty : HashMap V → Bool
  is_empty [] = true
  is_empty (e ∷ m) = false

  pub get-remove :
      (m : HashMap V) (k j : String) → get (remove k m) j ≡ (if str_eq k j then none else get m j)
  unfolding get remove
  get-remove [] k j = ground arith
  get-remove ((i, v) ∷ m) k j = ground (arith, get-remove m k j, eq_iff i k, eq_iff i j, eq_iff k j)

  pub get-insert :
      (m : HashMap V) (k j : String) (v : V)
      → get (insert k v m) j ≡ (if str_eq k j then some v else get m j)
  unfolding get insert
  get-insert m k j v = ground (arith, get-remove m k j)

  pub get-retain :
      (p : V → Bool) (m : HashMap V) (j : String) → get (retain p m) j ≡ keep_if p (get m j)
  unfolding get retain
  get-retain p [] j = refl
  get-retain p ((i, v) ∷ m) j = ground (arith, get-retain p m j, get-remove (retain p m) i j)

  pub get-retain_keys :
      (p : String → Bool) (m : HashMap V) (j : String)
      → get (retain_keys p m) j ≡ (if p j then get m j else none)
  unfolding get retain_keys
  get-retain_keys p [] j = ground arith
  get-retain_keys p ((i, v) ∷ m) j = ground (arith, get-retain_keys p m j, eq_iff i j)

  -- an empty map answers no key
  pub get-of_is_empty : (m : HashMap V) (j : String) → is_empty m ≡ true → get m j ≡ none
  unfolding get
  get-of_is_empty [] j h = refl
  get-of_is_empty (e ∷ m) j h = ground arith

abbrev pub bind_option {ℓ} : {V W : Type ℓ} → (V → Option W) → Option V → Option W
bind_option f none = none
bind_option f (some v) = f v

-- one step of the loop that fills a map from another one, with the keys of that
abbrev put_some {ℓ} : {W : Type ℓ} → String → Option W → HashMap W → HashMap W
put_some k none m = remove k m
put_some k (some w) m = (k, w) ∷ m

module _ {ℓ} {V W : Type ℓ} where
  -- the loop over `values_mut`, and the loops that fill a map with the same keys
  unfoldable pub map_values : (V → W) → HashMap V → HashMap W
  map_values f [] = []
  map_values f ((j, v) ∷ m) = (j, f v) ∷ map_values f m

  pub get-map_values :
      (f : V → W) (m : HashMap V) (j : String) → get (map_values f m) j ≡ map_option f (get m j)
  unfolding get map_values
  get-map_values f [] j = refl
  get-map_values f ((i, v) ∷ m) j = ground (arith, get-map_values f m j)

  -- As in `retain`, `remove` changes nothing where the keys are distinct.
  unfoldable pub filter_map_values : (V → Option W) → HashMap V → HashMap W
  unfolding remove
  filter_map_values f [] = []
  filter_map_values f ((j, v) ∷ m) = put_some j (f v) (filter_map_values f m)

  pub get-filter_map_values :
      (f : V → Option W) (m : HashMap V) (j : String)
      → get (filter_map_values f m) j ≡ bind_option f (get m j)
  unfolding get filter_map_values
  get-filter_map_values f [] j = refl
  get-filter_map_values f ((i, v) ∷ m) j =
      ground (arith, get-filter_map_values f m j, get-remove (filter_map_values f m) i j)

pub ruleset hash_map_laws = (get-remove, get-insert, get-retain, get-map_values)
