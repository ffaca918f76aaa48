-- ===== src/ClickHouse/Accounts/Urls.antt =====
-- The account URLs of the ClickHouse provider carry no admin identity.
use bindings.Common.{
  refl, eq_iff, inl, inr, arith, [], if◌then◌else◌, ◌++◌, some, ◌≡◌, ◌||◌, ◌==◌, Bool, String,
}
use bindings.Exec.{Result-cases, ok}
use bindings.Url.Laws.{values_of-del}
use bindings.Url.{values_of, Url, UrlLib}
use bindings.ClickHouse.Accounts.{account_url, account_urls}

abbrev is_identity_key : String → Bool
is_identity_key key = key == "username" || (key == "password" || key == "database")

account_url-values :
    (u : Url) (user_name password database_name key : String)
    → values_of ((account_url u user_name password database_name).query) key
      ≡ (if is_identity_key key then [] else values_of u.query key)
unfolding account_url
account_url-values u user_name password database_name key = simp values_of-del (
    ground (
      arith,
      eq_iff "username" key,
      eq_iff key "username",
      eq_iff "password" key,
      eq_iff key "password",
      eq_iff "database" key,
      eq_iff key "database",
    ))

-- The URLs `url` and `url_direct` are printed from one URL `u`, which is that of the service but
-- for the account's identity: its user and password, its database as the path, and no query
-- option that could name another user, password or database.
pub record Carries (urls : UrlLib) (admin_url user_name password database_name hostname : String)
    (url url_direct : String) : Type 0 where
  pub admin : Url
  pub u : Url
  pub parsed : urls.parse admin_url ≡ ok admin
  pub direct : url_direct ≡ urls.to_string u
  pub with_hostname : url ≡ urls.to_string (urls.set_hostname u hostname)
  pub identity : u.user ≡ some (user_name, password)
  pub path : u.path ≡ "/" ++ database_name
  pub scheme : u.scheme ≡ admin.scheme
  pub host : u.host ≡ admin.host
  pub options :
      (key : String)
      → values_of u.query key ≡ (if is_identity_key key then [] else values_of admin.query key)

-- Both account URLs are printed from one parsed URL: that of the service with the account's own
-- user and password, the account's database as its path, the service's scheme and host, and the
-- service's query options without username, password and database; the first URL has the binding
-- hostname put in.
pub account_urls-carry :
    (urls : UrlLib) (admin_url user_name password database_name hostname url url_direct : String)
    → account_urls urls admin_url user_name password database_name hostname ≡ ok (url, url_direct)
    → Carries urls admin_url user_name password database_name hostname url url_direct
unfolding account_urls
account_urls-carry urls admin_url user_name password database_name hostname url url_direct e =
    elim (Result-cases (urls.parse admin_url)) [
      | inr (_, failed) ↦ cc
      | inl (admin, parsed) ↦ record {
        admin = admin;
        u = account_url admin user_name password database_name;
        parsed = parsed;
        direct = ground arith;
        with_hostname = ground arith;
        identity = unfold account_url in refl;
        path = unfold account_url in refl;
        scheme = unfold account_url in refl;
        host = unfold account_url in refl;
        options = account_url-values admin user_name password database_name;
      }
    ]
