-- ===== src/Tests/Lifetimes.antt =====
-- The theorems on the lifetimes of fields, at the server of Tests/Server beside a table of the
-- lifetimes of fields.
use ruts.Prelude.{
  String, ◌≡◌, refl, inl, ◌&&◌, ℤ, pos, persistent, none, [], ◌∷◌, arith, str_eq, eq_iff,
  if◌then◌else◌,
}
use ruts.Outcome.{ok}
use ruts.SessionId.{to_string}
use ruts.Store.Codec.{serialize_value}
use ruts.Store.Redis.{set}
use ruts.Store.Redis.FieldLifetimes.{FieldLifetimes, set-field_lifetime, set-starts}
use ruts.Store.Redis.Server.{Redis}
use ruts.Tests.Crates.{unary, numbers, session}
use ruts.Tests.Redis.{keys}
use ruts.Tests.Server.{Keys, server}

abbrev Ttls : Type 0
Ttls = String → String → ℤ

abbrev put : String → String → ℤ → Ttls → Ttls
put k f n l j g = if str_eq k j && str_eq f g then n else l j g

put_lem : (k f : String) (n : ℤ) (l : Ttls) → put k f n l k f ≡ n
put_lem k f n l = ground (arith, eq_iff k k, eq_iff f f)

abbrev timed : Redis
timed = record {
  State = Keys × Ttls;
  exists = λ k s. server.exists k s.0;
  hget = λ k f s. server.hget k f s.0;
  hgetall = λ k s. server.hgetall k s.0;
  ttl = λ k s. server.ttl k s.0;
  hset = λ k f v s. (server.hset k f v s.0, put k f persistent s.1);
  hdel = λ k f s. ((server.hdel k f s.0).0, ((server.hdel k f s.0).1, s.1));
  hexpire = λ k n f s. (server.hexpire k n f s.0, put k f n s.1);
  hpersist = λ k f s. (server.hpersist k f s.0, put k f persistent s.1);
  persist = λ k s. (server.persist k s.0, s.1);
  expire = λ k n s. ((server.expire k n s.0).0, ((server.expire k n s.0).1, s.1));
  renamenx = λ old new s. ((server.renamenx old new s.0).0, ((server.renamenx old new s.0).1, s.1));
  del = λ k s. ((server.del k s.0).0, ((server.del k s.0).1, s.1));
  ttl-exists = λ k s. server.ttl-exists k s.0;
  hget-hset = λ k f v s. server.hget-hset k f v s.0;
  exists-hset = λ k f v s. server.exists-hset k f v s.0;
  ttl-hset = λ k f v s. server.ttl-hset k f v s.0;
  hget-hdel = λ k f s. server.hget-hdel k f s.0;
  hdel-missing = λ k f s h. ground (arith, server.hdel-missing k f s.0 h);
  hget-hexpire = λ k f n s. server.hget-hexpire k f n s.0;
  exists-hexpire = λ k f n s. server.exists-hexpire k f n s.0;
  ttl-hexpire = λ k f n s. server.ttl-hexpire k f n s.0;
  hget-hpersist = λ k f s. server.hget-hpersist k f s.0;
  exists-hpersist = λ k f s. server.exists-hpersist k f s.0;
  ttl-hpersist = λ k f s. server.ttl-hpersist k f s.0;
  hget-persist = λ k s. server.hget-persist k s.0;
  ttl-persist = λ k s. server.ttl-persist k s.0;
  hget-expire = λ k n s. server.hget-expire k n s.0;
  ttl-expire = λ k n s. server.ttl-expire k n s.0;
  renamenx-free = λ old new s. server.renamenx-free old new s.0;
  hget-renamenx = λ old new s. server.hget-renamenx old new s.0;
  renamenx-missing = λ old new s h.
      let (e, same) = server.renamenx-missing old new s.0 h in (e, ground (arith, same));
  exists-persist = λ k s. server.exists-persist k s.0;
  exists-expire = λ k n s. server.exists-expire k n s.0;
  del-missing = λ k s. server.del-missing k s.0;
  hget-del = λ k s. server.hget-del k s.0;
}

abbrev lifetimes : FieldLifetimes timed
lifetimes = record {
  httl = λ k f s. s.1 k f;
  httl-hexpire = λ k f n v s h p. put_lem k f n s.1;
  httl-hpersist = λ k f v s h. put_lem k f persistent s.1;
  httl-persist = λ k f s. refl;
  httl-expire = λ k f n s p. refl;
}

abbrev start : timed.State
start = (keys, λ k f. persistent)

set-field_lifetime_example :
    lifetimes.httl
      (to_string unary (session 1))
      "cart"
      (set unary timed numbers (session 1) "cart" 5 (pos 60) (pos 30) none start).1
    ≡ pos 30
unfolding serialize_value
set-field_lifetime_example =
    set-field_lifetime timed lifetimes unary numbers (session 1) "cart" 5 (pos 60) (pos 30) none
      (5 ∷ []) start refl (inl refl)

set-starts_example :
    ((set unary timed numbers (session 2) "cart" 5 (pos 60) (pos 30) none start).0 ≡ ok (pos 60))
    × (timed.ttl
          (to_string unary (session 2))
          (set unary timed numbers (session 2) "cart" 5 (pos 60) (pos 30) none start).1
        ≡ pos 60)
unfolding serialize_value to_string
set-starts_example =
    set-starts timed lifetimes unary numbers (session 2) "cart" 5 (pos 60) (pos 30) none (5 ∷ [])
      start refl (inl refl) (inl refl) refl
