-- ===== src/Store/Redis/Server.antt =====
-- The Redis server, which is not part of the repository: the commands that src/store/redis/lua.rs and
-- src/store/redis/mod.rs send, with what their documentation says of the fields and lifetimes at the
-- instant of the command as laws. A script runs alone, at one instant.
use ruts.Prelude.{
  ℕ, String, ◌≡◌, Bool, true, false, ◌&&◌, ℤ, pos, ltb_ℤ, persistent, gone, Option, none, some,
  str_eq, if◌then◌else◌,
}
use ruts.Outcome.{Result, ok, err}
use ruts.HashMap.{HashMap}
use ruts.Store.Codec.{Bytes}

pub record Redis : Type 1 where
  pub State : Type 0
  pub exists : String → State → Bool
  pub hget : String → String → State → Option Bytes
  -- as the client converts the reply
  pub hgetall : String → State → Option (HashMap Bytes)
  pub ttl : String → State → ℤ
  pub hset : String → String → Bytes → State → State
  pub hdel : String → String → State → ℕ × State
  pub hexpire : String → ℤ → String → State → State
  pub hpersist : String → String → State → State
  pub persist : String → State → State
  pub expire : String → ℤ → State → Bool × State
  pub renamenx : String → String → State → Result String Bool × State
  pub del : String → State → Bool × State
  pub ttl-exists : (k : String) (s : State) → exists k s ≡ false → ttl k s ≡ gone
  pub hget-hset :
      (k f : String) (v : Bytes) (s : State) (j g : String)
      → hget j g (hset k f v s) ≡ (if str_eq k j && str_eq f g then some v else hget j g s)
  pub exists-hset : (k f : String) (v : Bytes) (s : State) → exists k (hset k f v s) ≡ true
  pub ttl-hset :
      (k f : String) (v : Bytes) (s : State) → exists k s ≡ true → ttl k (hset k f v s) ≡ ttl k s
  pub hget-hdel :
      (k f : String) (s : State) (j g : String)
      → hget j g (hdel k f s).1 ≡ (if str_eq k j && str_eq f g then none else hget j g s)
  pub hdel-missing : (k f : String) (s : State) → hget k f s ≡ none → hdel k f s ≡ (0, s)
  pub hget-hexpire :
      (k f : String) (n : ℤ) (s : State) (j g : String)
      → ltb_ℤ (pos 0) n ≡ true
      → hget j g (hexpire k n f s) ≡ hget j g s
  pub exists-hexpire :
      (k f : String) (n : ℤ) (s : State)
      → ltb_ℤ (pos 0) n ≡ true
      → exists k (hexpire k n f s) ≡ exists k s
  pub ttl-hexpire :
      (k f : String) (n : ℤ) (s : State)
      → ltb_ℤ (pos 0) n ≡ true
      → ttl k (hexpire k n f s) ≡ ttl k s
  pub hget-hpersist :
      (k f : String) (s : State) (j g : String) → hget j g (hpersist k f s) ≡ hget j g s
  pub exists-hpersist : (k f : String) (s : State) → exists k (hpersist k f s) ≡ exists k s
  pub ttl-hpersist : (k f : String) (s : State) → ttl k (hpersist k f s) ≡ ttl k s
  pub hget-persist : (k : String) (s : State) (j g : String) → hget j g (persist k s) ≡ hget j g s
  pub ttl-persist : (k : String) (s : State) → exists k s ≡ true → ttl k (persist k s) ≡ persistent
  pub hget-expire :
      (k : String) (n : ℤ) (s : State) (j g : String)
      → ltb_ℤ (pos 0) n ≡ true
      → hget j g (expire k n s).1 ≡ hget j g s
  pub ttl-expire :
      (k : String) (n : ℤ) (s : State)
      → exists k s ≡ true
      → ltb_ℤ (pos 0) n ≡ true
      → ttl k (expire k n s).1 ≡ n
  pub renamenx-free :
      (old new : String) (s : State)
      → exists old s ≡ true
      → exists new s ≡ false
      → (renamenx old new s).0 ≡ ok true
  pub hget-renamenx :
      (old new : String) (s : State) (j g : String)
      → exists old s ≡ true
      → exists new s ≡ false
      → hget j g (renamenx old new s).1
        ≡ (if str_eq new j then hget old g s else if str_eq old j then none else hget j g s)
  pub renamenx-missing :
      (old new : String) (s : State)
      → exists old s ≡ false
      → (e : String) × (renamenx old new s ≡ (err e, s))
  pub exists-persist : (k : String) (s : State) → exists k (persist k s) ≡ exists k s
  pub exists-expire :
      (k : String) (n : ℤ) (s : State)
      → ltb_ℤ (pos 0) n ≡ true
      → exists k (expire k n s).1 ≡ exists k s
  pub del-missing : (k : String) (s : State) → exists k s ≡ false → (del k s).0 ≡ false
  pub hget-del :
      (k : String) (s : State) (j g : String)
      → hget j g (del k s).1 ≡ (if str_eq k j then none else hget j g s)
