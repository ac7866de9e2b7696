-- ===== src/Store/Memory/Expiry.antt =====
-- src/store/memory/mod.rs: the stored values, when they expire, and the loop of `get_ttl`. An instant
-- is a number of nanoseconds.
use ruts.Prelude.{
  ℕ, ◌+◌, ◌-◌, ◌*◌, ◌/◌, Bool, true, not, ◌&&◌, ◌||◌, Option, none, some, List, [], ◌∷◌, ltb,
  if◌then◌else◌, ℤ, pos, ◌==ℤ◌, ltb_ℤ, min_ℤ, to_nat, persistent, gone,
}
use ruts.HashMap
use ruts.HashMap.{HashMap, is_empty}
use ruts.Store.Codec.{Bytes}

abbrev pub nanos : ℕ
nanos = 1_000_000_000

pub record StoredValue : Type 0 where
  pub bytes : Bytes
  pub expires_at : Option ℕ

abbrev pub Fields : Type 0
Fields = HashMap StoredValue

-- What `Instant::now()` gives within one operation: to `cleanup_expired` (or the test of `get`), to
-- `determine_expiry` (or `expire`), and to `get_ttl`.
pub record Clock : Type 0 where
  pub swept : ℕ
  pub stored : ℕ
  pub read : ℕ

-- `expires_at.map(|e| e > now).unwrap_or(true)`
unfoldable pub is_live : ℕ → StoredValue → Bool
is_live now v = elim v.expires_at [ none ↦ true | some e ↦ ltb now e ]

unfoldable pub determine_expiry : ℕ → ℤ → ℤ → Option ℕ
determine_expiry now key_ttl_secs field_ttl_secs =
    if field_ttl_secs ==ℤ persistent || key_ttl_secs ==ℤ persistent
    then none
    else let ttl = min_ℤ key_ttl_secs field_ttl_secs in
      if ltb_ℤ (pos 0) ttl then some (now + to_nat ttl * nanos) else none

-- the `match` on `max_finite` in the loop of `get_ttl`
unfoldable pub later : ℕ → Option ℕ → ℕ → Option ℕ
later now none exp = if ltb now exp then some exp else none
later now (some current) exp = if ltb now exp && ltb current exp then some exp else some current

-- the `match` on `max_finite` at the end of `get_ttl`
unfoldable pub remaining : ℕ → Option ℕ → ℤ
remaining now none = gone
remaining now (some exp) = pos ((exp - now) / nanos)

-- the loop of `get_ttl`
unfoldable pub scan : ℕ → Option ℕ → List StoredValue → ℤ
unfolding later remaining
scan now max_finite [] = remaining now max_finite
scan now max_finite (v ∷ vs) = elim v.expires_at [
  | none ↦ persistent
  | some e ↦ scan now (later now max_finite e) vs
]

-- what the closure of `cleanup_expired` does with the fields of one session
unfoldable pub sweep : ℕ → Fields → Fields × Bool
unfolding is_live
sweep now fields = let kept = HashMap.retain (is_live now) fields in (kept, not (is_empty kept))

unfoldable pub or_default : Option Fields → Fields
or_default none = []
or_default (some fields) = fields

-- the body of the loop over `values_mut` in `expire`
abbrev pub restamp : Option ℕ → StoredValue → StoredValue
restamp expires_at v = record v { expires_at = expires_at }
