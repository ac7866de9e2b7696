-- ===== src/HashMap/Keys.antt =====
-- `std::collections::HashMap`, and the tables of src/store/postgres/mod.rs, have one entry for a key:
-- the association lists of HashMap.antt keep to that.
use ruts.Prelude.{String, ◌≡◌, Bool, none, [], ◌∷◌, arith, Bool-cases, inl, inr, eq_iff, str_eq}
use ruts.HashMap
use ruts.HashMap.{
  HashMap, keep_if, map_option, get-remove, get-retain, get-retain_keys, get-map_values,
}

-- the keys are distinct
abbrev pub IsKeyed {ℓ} : {V : Type ℓ} → HashMap V → Type ℓ
IsKeyed [] = Unit
IsKeyed ((k, v) ∷ m) = (HashMap.get m k ≡ none) × IsKeyed m

module _ {ℓ} {V : Type ℓ} where
  pub remove-IsKeyed : (k : String) (m : HashMap V) → IsKeyed m → IsKeyed (HashMap.remove k m)
  unfolding HashMap.remove
  remove-IsKeyed k [] h = tt
  remove-IsKeyed k ((j, v) ∷ m) (fresh, rest) = elim (Bool-cases (str_eq j k)) [
    | inl e ↦ rw e (remove-IsKeyed k m rest)
    | inr e ↦ rw e (ground (arith, get-remove m k j), remove-IsKeyed k m rest)
  ]

  pub insert-IsKeyed :
      (k : String) (v : V) (m : HashMap V) → IsKeyed m → IsKeyed (HashMap.insert k v m)
  unfolding HashMap.insert
  insert-IsKeyed k v m h = (ground (arith, get-remove m k k, eq_iff k k), remove-IsKeyed k m h)

  pub retain-IsKeyed : (p : V → Bool) (m : HashMap V) → IsKeyed m → IsKeyed (HashMap.retain p m)
  unfolding HashMap.retain
  retain-IsKeyed p [] h = tt
  retain-IsKeyed p ((j, v) ∷ m) (fresh, rest) = elim (Bool-cases (p v)) [
    | inl e ↦ rw e (ground (arith, get-retain p m j), retain-IsKeyed p m rest)
    | inr e ↦ rw e (remove-IsKeyed j (HashMap.retain p m) (retain-IsKeyed p m rest))
  ]

  pub retain_keys-IsKeyed :
      (p : String → Bool) (m : HashMap V) → IsKeyed m → IsKeyed (HashMap.retain_keys p m)
  unfolding HashMap.retain_keys
  retain_keys-IsKeyed p [] h = tt
  retain_keys-IsKeyed p ((j, v) ∷ m) (fresh, rest) = elim (Bool-cases (p j)) [
    | inl e ↦ rw e (ground (arith, get-retain_keys p m j), retain_keys-IsKeyed p m rest)
    | inr e ↦ rw e (retain_keys-IsKeyed p m rest)
  ]

module _ {ℓ} {V W : Type ℓ} where
  pub map_values-IsKeyed :
      (f : V → W) (m : HashMap V) → IsKeyed m → IsKeyed (HashMap.map_values f m)
  unfolding HashMap.map_values
  map_values-IsKeyed f [] h = tt
  map_values-IsKeyed f ((j, v) ∷ m) (fresh, rest) =
      (ground (arith, get-map_values f m j), map_values-IsKeyed f m rest)
