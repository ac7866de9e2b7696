-- ===== src/Store/Postgres/Built.antt =====
-- src/store/postgres/mod.rs: the names of the tables of a store.
use ruts.Prelude.{ℕ, ◌+◌, String, ◌<>◌, ◌≡◌, ◌≢◌, refl, ap, Option, none, some, arith}
use text.Mathlib.TextLemmas.{append_assoc}
use text.Mathlib.TextPositions.{len-append}
use Prim.Native.String.{len}
use ruts.Store.Postgres.Builder.{quoted, table_names}

-- a quoted name is longer than what it quotes
len-quoted : (schema : Option String) → (n : ℕ) × ((t : String) → len (quoted schema t) ≡ n + len t)
unfolding quoted
len-quoted none = (2, λ t. grind (arith, len-append "\"" (t <> "\""), len-append t "\""))
len-quoted (some s) = (
  len s + 5,
  λ t. grind (
    arith,
    len-append "\"" (s <> "\".\"" <> t <> "\""),
    len-append s ("\".\"" <> t <> "\""),
    len-append "\".\"" (t <> "\""),
    len-append t "\"",
  ),
)

-- The two tables of a store have different names. But a table of one builder can be one of another
-- builder: the table of fields of `t` is the first table of `t_kv`, and, since `format!` does not
-- double the quotes in a name, a schema and a table name one table with a table of a longer name.
pub table_names-clash :
    (schema : Option String) (a t : String)
    → ((table_names schema t).0 ≢ (table_names schema t).1)
      × ((table_names schema t).1 ≡ (table_names schema (t <> "_kv")).0)
      × (table_names (some a) t ≡ table_names none (a <> "\".\"" <> t))
unfolding table_names quoted
table_names-clash schema a t = (
  (λ h.
      let (n, counted) = len-quoted schema in
      ground (arith, ap len h, counted t, counted (t <> "_kv"), len-append t "_kv")),
  refl,
  simp append_assoc,
)
