-- ===== src/Tests/Server.antt =====
-- A small Redis server that meets the laws of Store/Redis/Server.antt: a key has a lifetime and
-- fields. Instants do not pass in it.
use ruts.Prelude.{
  ℕ, String, ◌≡◌, refl, Bool, true, false, ◌&&◌, ℤ, pos, ltb_ℤ, persistent, gone, Option, none,
  some, [], arith, str_eq, eq_iff, if◌then◌else◌,
}
use ruts.Outcome.{Result, ok, err}
use ruts.HashMap
use ruts.HashMap.{HashMap, is_empty, map_option, get-insert, get-remove, get-of_is_empty}
use ruts.Store.Codec.{Bytes}
use ruts.Store.Redis.Server.{Redis}

abbrev pub Entry : Type 0
Entry = ℤ × HashMap Bytes

abbrev pub Keys : Type 0
Keys = String → Option Entry

abbrev pub present : Option Entry → Bool
present none = false
present (some e) = true

unfoldable pub field_at : Option Entry → String → Option Bytes
unfolding HashMap.get
field_at none g = none
field_at (some e) g = HashMap.get e.1 g

abbrev pub lifetime : Option Entry → ℤ
lifetime none = gone
lifetime (some e) = e.0

abbrev pub at_key : String → (Option Entry → Option Entry) → Keys → Keys
at_key k change s j = if str_eq k j then change (s j) else s j

unfoldable pub with_field : String → Bytes → Option Entry → Option Entry
unfolding HashMap.insert
with_field f v none = some (persistent, HashMap.insert f v [])
with_field f v (some e) = some (e.0, HashMap.insert f v e.1)

unfoldable pub without_field : String → Option Entry → Option Entry
unfolding HashMap.remove
without_field f none = none
without_field f (some e) =
    if is_empty (HashMap.remove f e.1) then none else some (e.0, HashMap.remove f e.1)

abbrev pub with_lifetime : ℤ → Option Entry → Option Entry
with_lifetime n none = none
with_lifetime n (some e) = if ltb_ℤ (pos 0) n then some (n, e.1) else none

abbrev pub persisted : Option Entry → Option Entry
persisted none = none
persisted (some e) = some (persistent, e.1)

abbrev pub hdel : String → String → Keys → ℕ × Keys
hdel k f s = elim (field_at (s k) f) [ none ↦ (0, s) | some v ↦ (1, at_key k (without_field f) s) ]

abbrev pub renamenx : String → String → Keys → Result String Bool × Keys
renamenx old new s = elim (s old) [
  | none ↦ (err "ERR no such key", s)
  | some e ↦ elim (s new) [
    | some _ ↦ (ok false, s)
    | none ↦ (ok true, λ j. if str_eq new j then some e else if str_eq old j then none else s j)
  ]
]

field_at-with_field :
    (f : String) (v : Bytes) (o : Option Entry) (g : String)
    → field_at (with_field f v o) g ≡ (if str_eq f g then some v else field_at o g)
unfolding field_at with_field HashMap.get
field_at-with_field f v none g = ground (arith, get-insert [] f g v)
field_at-with_field f v (some e) g = ground (arith, get-insert e.1 f g v)

field_at-without_field :
    (f : String) (o : Option Entry) (g : String)
    → field_at (without_field f o) g ≡ (if str_eq f g then none else field_at o g)
unfolding field_at without_field
field_at-without_field f none g = ground arith
field_at-without_field f (some e) g =
    ground (arith, get-remove e.1 f g, get-of_is_empty (HashMap.remove f e.1) g)

field_at-with_lifetime :
    (n : ℤ) (o : Option Entry) (g : String)
    → ltb_ℤ (pos 0) n ≡ true
    → field_at (with_lifetime n o) g ≡ field_at o g
unfolding field_at
field_at-with_lifetime n none g h = refl
field_at-with_lifetime n (some e) g h = ground arith

field_at-persisted : (o : Option Entry) (g : String) → field_at (persisted o) g ≡ field_at o g
unfolding field_at
field_at-persisted none g = refl
field_at-persisted (some e) g = refl

pub hget-hset :
    (k f : String) (v : Bytes) (s : Keys) (j g : String)
    → field_at (at_key k (with_field f v) s j) g
      ≡ (if str_eq k j && str_eq f g then some v else field_at (s j) g)
hget-hset k f v s j g = ground (arith, field_at-with_field f v (s j) g)

pub exists-hset :
    (k f : String) (v : Bytes) (s : Keys) → present (at_key k (with_field f v) s k) ≡ true
unfolding with_field
exists-hset k f v s = ground (arith, eq_iff k k)

pub ttl-hset :
    (k f : String) (v : Bytes) (s : Keys)
    → present (s k) ≡ true
    → lifetime (at_key k (with_field f v) s k) ≡ lifetime (s k)
unfolding with_field
ttl-hset k f v s h = ground (arith, eq_iff k k)

pub hget-hdel :
    (k f : String) (s : Keys) (j g : String)
    → field_at ((hdel k f s).1 j) g ≡ (if str_eq k j && str_eq f g then none else field_at (s j) g)
hget-hdel k f s j g = ground (arith, field_at-without_field f (s j) g, eq_iff k j, eq_iff f g)

pub hdel-missing : (k f : String) (s : Keys) → field_at (s k) f ≡ none → hdel k f s ≡ (0, s)
hdel-missing k f s h = rw (h, hdel) refl

pub hget-persist :
    (k : String) (s : Keys) (j g : String) → field_at (at_key k persisted s j) g ≡ field_at (s j) g
hget-persist k s j g = ground (arith, field_at-persisted (s j) g)

pub ttl-persist :
    (k : String) (s : Keys) → present (s k) ≡ true → lifetime (at_key k persisted s k) ≡ persistent
ttl-persist k s h = ground (arith, eq_iff k k)

pub hget-expire :
    (k : String) (n : ℤ) (s : Keys) (j g : String)
    → ltb_ℤ (pos 0) n ≡ true
    → field_at (at_key k (with_lifetime n) s j) g ≡ field_at (s j) g
hget-expire k n s j g h = ground (arith, field_at-with_lifetime n (s j) g h)

pub ttl-expire :
    (k : String) (n : ℤ) (s : Keys)
    → present (s k) ≡ true
    → ltb_ℤ (pos 0) n ≡ true
    → lifetime (at_key k (with_lifetime n) s k) ≡ n
ttl-expire k n s h p = ground (arith, eq_iff k k)

pub renamenx-free :
    (old new : String) (s : Keys)
    → present (s old) ≡ true
    → present (s new) ≡ false
    → (renamenx old new s).0 ≡ ok true
renamenx-free old new s h p = ground arith

pub hget-renamenx :
    (old new : String) (s : Keys) (j g : String)
    → present (s old) ≡ true
    → present (s new) ≡ false
    → field_at ((renamenx old new s).1 j) g ≡ (
        if str_eq new j
        then field_at (s old) g
        else if str_eq old j
        then none
        else field_at (s j) g)
unfolding field_at
hget-renamenx old new s j g h p = ground arith

pub renamenx-missing :
    (old new : String) (s : Keys)
    → present (s old) ≡ false
    → (e : String) × (renamenx old new s ≡ (err e, s))
renamenx-missing old new s h = ("ERR no such key", ground arith)

pub ttl-missing : (k : String) (s : Keys) → present (s k) ≡ false → lifetime (s k) ≡ gone
ttl-missing k s h = ground arith

pub exists-persist : (k : String) (s : Keys) → present (at_key k persisted s k) ≡ present (s k)
exists-persist k s = ground arith

pub exists-expire :
    (k : String) (n : ℤ) (s : Keys)
    → ltb_ℤ (pos 0) n ≡ true
    → present (at_key k (with_lifetime n) s k) ≡ present (s k)
exists-expire k n s h = ground arith

pub hget-del :
    (k : String) (s : Keys) (j g : String)
    → field_at (at_key k (λ o. none) s j) g ≡ (if str_eq k j then none else field_at (s j) g)
unfolding field_at
hget-del k s j g = ground arith

abbrev pub server : Redis
server = record {
  State = Keys;
  exists = λ k s. present (s k);
  hget = λ k f s. field_at (s k) f;
  hgetall = λ k s. map_option (λ (e : Entry). e.1) (s k);
  ttl = λ k s. lifetime (s k);
  hset = λ k f v s. at_key k (with_field f v) s;
  hdel = hdel;
  hexpire = λ k n f s. s;
  hpersist = λ k f s. s;
  persist = λ k s. at_key k persisted s;
  expire = λ k n s. (present (s k), at_key k (with_lifetime n) s);
  renamenx = renamenx;
  del = λ k s. (present (s k), at_key k (λ o. none) s);
  ttl-exists = ttl-missing;
  hget-hset = hget-hset;
  exists-hset = exists-hset;
  ttl-hset = ttl-hset;
  hget-hdel = hget-hdel;
  hdel-missing = hdel-missing;
  hget-hexpire = λ k f n s j g h. refl;
  exists-hexpire = λ k f n s h. refl;
  ttl-hexpire = λ k f n s h. refl;
  hget-hpersist = λ k f s j g. refl;
  exists-hpersist = λ k f s. refl;
  ttl-hpersist = λ k f s. refl;
  hget-persist = hget-persist;
  ttl-persist = ttl-persist;
  hget-expire = hget-expire;
  ttl-expire = ttl-expire;
  renamenx-free = renamenx-free;
  hget-renamenx = hget-renamenx;
  renamenx-missing = renamenx-missing;
  exists-persist = exists-persist;
  exists-expire = exists-expire;
  del-missing = λ k s h. h;
  hget-del = hget-del;
}
