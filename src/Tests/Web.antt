-- ===== src/Tests/Web.antt =====
-- The theorems on src/service/mod.rs and src/extract/mod.rs at concrete requests.
use ruts.Prelude.{ℕ, String, Bool, Option, none, some, true, pos}
use ruts.Outcome.{Result, ok}
use ruts.Cookies.Options.{CookieOptions}
use ruts.Service.{SessionService}
use ruts.Tests.Crates.{Tin}

-- options with a path, and with a key or not
abbrev pub options : Option ℕ → CookieOptions Bool ℕ
options signing_key = record {
  http_only = true;
  name = "session";
  domain = some "example.org";
  path = some "/app";
  same_site = true;
  secure = true;
  max_age = pos 600;
  signing_key = signing_key;
}

abbrev pub service : Option ℕ → SessionService ℕ Bool ℕ ℕ
service signing_key = record { inner = 0; cookie_options = some (options signing_key); store = 0 }

abbrev pub jar : Tin
jar = record {
  plain = λ n. some (record { name = n; value = "bbbbbbbbbbbbbbbb"; max_age = none; path = none });
  signed = λ k n. none;
}

abbrev pub body : Result ℕ String
body = ok "body"
