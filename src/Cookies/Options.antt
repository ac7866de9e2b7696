-- ===== src/Cookies/Options.antt =====
-- src/session/cookie_options.rs: `CookieOptions` and its builder.
use ruts.Prelude.{String, ℤ, pos, ◌*◌, Option, none, some, Bool, true}

pub record CookieOptions (SameSite Key : Type 0) : Type 0 where
  pub http_only : Bool
  pub name : String
  pub domain : Option String
  pub path : Option String
  pub same_site : SameSite
  pub secure : Bool
  pub max_age : ℤ
  pub signing_key : Option Key

-- `Default`
unfoldable pub default : {SameSite Key : Type 0} → SameSite → CookieOptions SameSite Key
default lax = record {
  http_only = true;
  name = "id";
  domain = none;
  path = none;
  same_site = lax;
  secure = true;
  max_age = pos (10 * 60);
  signing_key = none;
}

unfoldable pub build : {SameSite Key : Type 0} → SameSite → CookieOptions SameSite Key
unfolding default
build lax = default lax

module _ {SameSite Key : Type 0} where
  unfoldable pub with_name : String → CookieOptions SameSite Key → CookieOptions SameSite Key
  with_name name o = record o { name = name }

  unfoldable pub with_http_only : Bool → CookieOptions SameSite Key → CookieOptions SameSite Key
  with_http_only http_only o = record o { http_only = http_only }

  unfoldable pub with_same_site : SameSite → CookieOptions SameSite Key → CookieOptions SameSite Key
  with_same_site same_site o = record o { same_site = same_site }

  unfoldable pub with_secure : Bool → CookieOptions SameSite Key → CookieOptions SameSite Key
  with_secure secure o = record o { secure = secure }

  unfoldable pub with_domain : String → CookieOptions SameSite Key → CookieOptions SameSite Key
  with_domain domain o = record o { domain = some domain }

  unfoldable pub with_path : String → CookieOptions SameSite Key → CookieOptions SameSite Key
  with_path path o = record o { path = some path }

  unfoldable pub with_max_age : ℤ → CookieOptions SameSite Key → CookieOptions SameSite Key
  with_max_age seconds o = record o { max_age = seconds }

  unfoldable pub with_signing_key : Key → CookieOptions SameSite Key → CookieOptions SameSite Key
  with_signing_key key o = record o { signing_key = some key }
