-- ===== src/Store/Memory/Longest.antt =====
-- src/store/memory/mod.rs: the loop of `get_ttl` against a description of its result, which goes by
-- all the values of a session at once.
use ruts.Prelude.{ℕ, Bool, true, false, ◌||◌, Option, none, some, List, [], ◌∷◌, ltb, if◌then◌else◌}
use ruts.DashMap.{DashMap}
use ruts.SessionId.{SessionId}
use ruts.Store.Memory.Expiry.{StoredValue}

-- the later of two expiries, where there are two
abbrev pub later_of : Option ℕ → Option ℕ → Option ℕ
later_of none b = b
later_of (some a) none = some a
later_of (some a) (some b) = some (if ltb a b then b else a)

-- the expiry of a value, if it is ahead
abbrev pub ahead : ℕ → Option ℕ → Option ℕ
ahead now none = none
ahead now (some e) = if ltb now e then some e else none

abbrev pub is_lasting : Option ℕ → Bool
is_lasting none = true
is_lasting (some e) = false

-- whether some value has no expiry
abbrev pub some_lasting : List StoredValue → Bool
some_lasting [] = false
some_lasting (v ∷ vs) = is_lasting v.expires_at || some_lasting vs

-- the last of the expiries that are ahead
abbrev pub last_ahead : ℕ → List StoredValue → Option ℕ
last_ahead now [] = none
last_ahead now (v ∷ vs) = later_of (ahead now v.expires_at) (last_ahead now vs)
