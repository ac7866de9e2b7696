-- ===== src/Store/Postgres/Tables.antt =====
-- src/store/postgres/mod.rs: the two tables, as `build` creates them, and SQL's operations on
-- timestamps that the queries use. A table is a map by its primary key; the rows of the second, whose
-- key is (fk_session_id, field), are grouped by session. A timestamp is a number of microseconds, and
-- `null` is `none`. Intervals are computed by the code in `f64`, which is exact below 2^53 seconds.
use ruts.Prelude.{
  ℕ, zero, suc, ◌+◌, ◌-◌, ◌*◌, ◌/◌, Bool, true, Option, none, some, List, [], ◌∷◌, ltb, leb,
  if◌then◌else◌, ℤ, pos, negsuc, ◌==ℤ◌, min_ℤ, persistent,
}
use ruts.HashMap.{HashMap}
use ruts.Store.Codec.{Bytes}

abbrev pub micros : ℕ
micros = 1_000_000

-- a row of the table of fields, without its key
pub record FieldRow : Type 0 where
  pub value : Bytes
  pub expires_at : Option ℕ
  pub hot_cache_ttl : Option ℤ

abbrev pub Rows : Type 0
Rows = HashMap FieldRow

pub record Db : Type 0 where
  -- session_id to expires_at
  pub sessions : HashMap (Option ℕ)
  -- fk_session_id to the rows of the session
  pub fields : HashMap Rows

abbrev pub rows_of : Option Rows → Rows
rows_of none = []
rows_of (some rows) = rows

-- `expires_at is null or expires_at > now()`
abbrev pub is_current : ℕ → Option ℕ → Bool
is_current now none = true
is_current now (some e) = ltb now e

-- `now() + make_interval(secs => $1)`
abbrev pub plus_secs : ℕ → ℤ → ℕ
plus_secs now (pos n) = now + n * micros
plus_secs now (negsuc n) = now - suc n * micros

-- the same, where a lifetime of -1 is bound as null
abbrev pub deadline : ℕ → ℤ → Option ℕ
deadline now ttl = if ttl ==ℤ persistent then none else some (plus_secs now ttl)

abbrev pub negated : ℕ → ℤ
negated zero = pos 0
negated (suc n) = negsuc n

-- `extract(epoch from (e - now()))::bigint`, which rounds to the nearest second
unfoldable pub seconds_until : ℕ → ℕ → ℤ
seconds_until now e =
    if leb now e then pos ((e - now + 500_000) / micros) else negated ((now - e + 500_000) / micros)

-- `case when expires_at is null then -1 else extract(…)::bigint end`
unfoldable pub ttl_of : ℕ → Option ℕ → ℤ
unfolding seconds_until
ttl_of now none = persistent
ttl_of now (some e) = seconds_until now e

-- `case when a is null or b is null then null else greatest(a, b) end`
abbrev pub greatest : Option ℕ → Option ℕ → Option ℕ
greatest none b = none
greatest (some a) none = none
greatest (some a) (some b) = some (if ltb a b then b else a)

-- `case when bool_or(expires_at is null) then null else max(expires_at) end` over some rows; over
-- none of them `max` is null
unfoldable pub latest : List FieldRow → Option ℕ
latest [] = none
latest (r ∷ []) = r.expires_at
latest (r ∷ q ∷ rs) = greatest r.expires_at (latest (q ∷ rs))

-- `Option::min`, by which `None` is the least
abbrev pub min_option : Option ℤ → Option ℤ → Option ℤ
min_option none b = none
min_option (some a) none = none
min_option (some a) (some b) = some (min_ℤ a b)
