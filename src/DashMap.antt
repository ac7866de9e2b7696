-- ===== src/DashMap.antt =====
-- The `dashmap` crate, which the in-memory store keeps its sessions in. It is not part of the
-- repository: the store takes it as this record, with the documented behaviour of the methods that
-- the store calls as laws. `retain` hands the closure each value to change, and drops the entries
-- for which it returns false.
use ruts.Prelude.{String, ◌≡◌, refl, Bool, Option, none, some, str_eq, if◌then◌else◌}

-- what `retain` leaves of one entry
abbrev pub retained {ℓ} : {V : Type ℓ} → (V → V × Bool) → Option V → Option V
retained f none = none
retained f (some v) = if (f v).1 then some (f v).0 else none

pub record DashMap (V : Type 0) : Type 1 where
  pub Table : Type 0
  pub new : Table
  pub get : Table → String → Option V
  pub insert : String → V → Table → Table
  pub remove : String → Table → Table
  pub retain : (V → V × Bool) → Table → Table
  pub get-new : (k : String) → get new k ≡ none
  pub get-insert :
      (t : Table) (k j : String) (v : V)
      → get (insert k v t) j ≡ (if str_eq k j then some v else get t j)
  pub get-remove :
      (t : Table) (k j : String) → get (remove k t) j ≡ (if str_eq k j then none else get t j)
  pub get-retain :
      (f : V → V × Bool) (t : Table) (j : String) → get (retain f t) j ≡ retained f (get t j)

-- A table as a function: the laws can be met.
abbrev pub function_table : (V : Type 0) → DashMap V
function_table V = record {
  Table = String → Option V;
  new = λ k. none;
  get = λ t k. t k;
  insert = λ k v t j. if str_eq k j then some v else t j;
  remove = λ k t j. if str_eq k j then none else t j;
  retain = λ f t j. retained f (t j);
  get-new = λ k. refl;
  get-insert = λ t k j v. refl;
  get-remove = λ t k j. refl;
  get-retain = λ f t j. refl;
}
