-- ===== src/Cookies.antt =====
-- The `cookie` and `tower_cookies` crates, which are not part of the repository: cookies, their
-- builder, and the jar of a request, with its signed view. The laws are the documented behaviour: a
-- builder's method sets its own attribute and keeps the others, a jar answers with what was added to
-- it last, and a signed jar with what was signed with the same key.
pub mod Options
use ruts.Prelude.{String, ℤ, ◌≡◌, Option, none, some, Bool, str_eq, if◌then◌else◌}

pub record CookieCrate : Type 1 where
  pub Cookie : Type 0
  pub SameSite : Type 0
  pub lax : SameSite
  -- `Cookie::build(name)` and `Cookie::build((name, value))`
  pub named : String → Cookie
  pub build : String → String → Cookie
  pub set_secure : Bool → Cookie → Cookie
  pub set_http_only : Bool → Cookie → Cookie
  pub set_same_site : SameSite → Cookie → Cookie
  pub set_max_age : ℤ → Cookie → Cookie
  pub set_domain : String → Cookie → Cookie
  pub set_path : String → Cookie → Cookie
  pub name : Cookie → String
  pub value : Cookie → String
  pub max_age : Cookie → Option ℤ
  pub path : Cookie → Option String
  pub name-named : (n : String) → name (named n) ≡ n
  pub path-named : (n : String) → path (named n) ≡ none
  pub name-build : (n v : String) → name (build n v) ≡ n
  pub value-build : (n v : String) → value (build n v) ≡ v
  pub path-build : (n v : String) → path (build n v) ≡ none
  pub name-set_secure : (b : Bool) (c : Cookie) → name (set_secure b c) ≡ name c
  pub value-set_secure : (b : Bool) (c : Cookie) → value (set_secure b c) ≡ value c
  pub path-set_secure : (b : Bool) (c : Cookie) → path (set_secure b c) ≡ path c
  pub name-set_http_only : (b : Bool) (c : Cookie) → name (set_http_only b c) ≡ name c
  pub value-set_http_only : (b : Bool) (c : Cookie) → value (set_http_only b c) ≡ value c
  pub path-set_http_only : (b : Bool) (c : Cookie) → path (set_http_only b c) ≡ path c
  pub name-set_same_site : (s : SameSite) (c : Cookie) → name (set_same_site s c) ≡ name c
  pub value-set_same_site : (s : SameSite) (c : Cookie) → value (set_same_site s c) ≡ value c
  pub path-set_same_site : (s : SameSite) (c : Cookie) → path (set_same_site s c) ≡ path c
  pub name-set_max_age : (a : ℤ) (c : Cookie) → name (set_max_age a c) ≡ name c
  pub value-set_max_age : (a : ℤ) (c : Cookie) → value (set_max_age a c) ≡ value c
  pub path-set_max_age : (a : ℤ) (c : Cookie) → path (set_max_age a c) ≡ path c
  pub max_age-set_max_age : (a : ℤ) (c : Cookie) → max_age (set_max_age a c) ≡ some a
  pub name-set_domain : (d : String) (c : Cookie) → name (set_domain d c) ≡ name c
  pub value-set_domain : (d : String) (c : Cookie) → value (set_domain d c) ≡ value c
  pub path-set_domain : (d : String) (c : Cookie) → path (set_domain d c) ≡ path c
  pub max_age-set_domain : (d : String) (c : Cookie) → max_age (set_domain d c) ≡ max_age c
  pub name-set_path : (p : String) (c : Cookie) → name (set_path p c) ≡ name c
  pub value-set_path : (p : String) (c : Cookie) → value (set_path p c) ≡ value c
  pub path-set_path : (p : String) (c : Cookie) → path (set_path p c) ≡ some p
  pub max_age-set_path : (p : String) (c : Cookie) → max_age (set_path p c) ≡ max_age c

-- `tower_cookies::Cookies` and its signed view
pub record JarCrate (crate : CookieCrate) : Type 1 where
  pub Jar : Type 0
  pub Key : Type 0
  pub get : Jar → String → Option crate.Cookie
  pub add : crate.Cookie → Jar → Jar
  pub remove : crate.Cookie → Jar → Jar
  pub signed_get : Key → Jar → String → Option crate.Cookie
  pub signed_add : Key → crate.Cookie → Jar → Jar
  pub get-add :
      (c : crate.Cookie) (j : Jar) (n : String)
      → get (add c j) n ≡ (if str_eq (crate.name c) n then some c else get j n)
  pub get-remove :
      (c : crate.Cookie) (j : Jar) (n : String)
      → get (remove c j) n ≡ (if str_eq (crate.name c) n then none else get j n)
  pub signed_get-signed_add :
      (k : Key) (c : crate.Cookie) (j : Jar) (n : String)
      → signed_get k (signed_add k c j) n
        ≡ (if str_eq (crate.name c) n then some c else signed_get k j n)
