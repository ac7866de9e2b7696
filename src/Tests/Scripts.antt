-- ===== src/Tests/Scripts.antt =====
-- The theorem on loading the scripts of Redis, at a server that keeps the scripts in a list.
use ruts.Prelude.{
  String, ℤ, ◌≡◌, refl, Bool, true, false, Option, none, some, pos, arith, if◌then◌else◌, str_eq,
}
use ruts.Outcome.{Result}
use ruts.Store.Codec.{Error}
use ruts.Store.Redis as Methods
use ruts.Store.Redis.Scripts.{
  Script, set_source, set_and_rename_source, ScriptCache, Loaded, IsReady, seen, set,
  set_and_rename, calls-run,
}
use ruts.Tests.Crates.{unary, numbers, session}
use ruts.Tests.Redis.{keys}
use ruts.Tests.Server.{server}

abbrev name_of : Script → String
name_of set_source = "set"
name_of set_and_rename_source = "rename"

-- whether each script is there
abbrev Held : Type 0
Held = Bool × Bool

abbrev look_up : String → Held → Option Script
look_up hash (a, b) =
    if str_eq hash "set"
    then (if a then some set_source else none)
    else if str_eq hash "rename"
    then (if b then some set_and_rename_source else none)
    else none

abbrev load : Script → Held → Held
load set_source (a, b) = (true, b)
load set_and_rename_source (a, b) = (a, true)

look_up-own :
    (script other : Script) (s : Held) → look_up (name_of script) s ≡ some other → other ≡ script
look_up-own set_source other s h = ground arith
look_up-own set_and_rename_source other s h = ground arith

look_up-load : (script : Script) (s : Held) → look_up (name_of script) (load script s) ≡ some script
look_up-load set_source s = refl
look_up-load set_and_rename_source s = refl

look_up-kept :
    (script other : Script) (hash : String) (s : Held)
    → look_up hash s ≡ some other
    → look_up hash (load script s) ≡ some other
look_up-kept set_source other hash s h = ground arith
look_up-kept set_and_rename_source other hash s h = ground arith

abbrev cache : ScriptCache
cache = record {
  State = Held;
  sha1_hash = name_of;
  loaded = look_up;
  script_load = load;
  no_script = "NOSCRIPT";
  failed = "ERR";
  loaded-own = look_up-own;
  loaded-load = look_up-load;
  loaded-kept = look_up-kept;
}

-- the cell of `set` is empty, and the other one is not
abbrev at_first : Loaded server cache
at_first = record {
  set_hash = none;
  rename_hash = some "rename";
  scripts = (false, true);
  keys = keys;
}

abbrev first_set : Result Error ℤ × Loaded server cache
first_set = set server cache unary numbers (session 2) "cart" 5 (pos 60) (pos 30) at_first

abbrev first_rename : Result Error ℤ × Loaded server cache
first_rename =
    set_and_rename server cache unary numbers (session 1) (session 2) "cart" 5 (pos 60) (pos 30)
      at_first

calls-run_example :
    (seen server cache first_set
      ≡ Methods.set unary server numbers (session 2) "cart" 5 (pos 60) (pos 30) none keys)
    × IsReady server cache first_set.1
    × (seen server cache first_rename
        ≡ Methods.set_and_rename unary server numbers
            (session 1)
            (session 2)
            "cart"
            5
            (pos 60)
            (pos 30)
            none
            keys)
    × IsReady server cache first_rename.1
calls-run_example =
    calls-run server cache unary numbers (session 1) (session 2) "cart" 5 (pos 60) (pos 30) none
      at_first (record { set_ready = tt; rename_ready = refl })
