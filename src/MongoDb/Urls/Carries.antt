-- ===== src/MongoDb/Urls/Carries.antt =====
-- What an account URL of the MongoDB provider carries.
-- binding.SetURLHostname changes the host only.
use bindings.Common.{
  refl, ◌∙◌, ap, false, eq_iff, inl, ◌⊎◌, [], inr, ◌∷◌, ◌++◌, ◌==◌, some, if◌then◌else◌, arith, ◌≡◌,
  String,
}
use bindings.Url.Laws.{values_of-del}
use bindings.MongoDb.Urls.{contains_comma, validate_service_url, build_account_url, account_url}
use bindings.Exec.{Result-cases, ok}
use bindings.Url.{Values, Url, values_of, UrlLib, set_value}

pub record ChangesHost (urls : UrlLib) : Type 0 where
  pub scheme : (u : Url) (host : String) → (urls.set_hostname u host).scheme ≡ u.scheme
  pub user : (u : Url) (host : String) → (urls.set_hostname u host).user ≡ u.user
  pub query : (u : Url) (host : String) → (urls.set_hostname u host).query ≡ u.query

-- An account URL printed from `u`, which was made from the service's URL.
pub record Carries (urls : UrlLib) (service_url user_name password database text : String)
    : Type 0 where
  pub service : Url
  pub u : Url
  pub parsed : urls.parse service_url ≡ ok service
  pub printed : text ≡ urls.to_string u
  pub identity : u.user ≡ some (user_name, password)
  pub path : u.path ≡ "/" ++ database
  pub scheme : u.scheme ≡ service.scheme
  pub srv_host : (service.scheme ≡ "mongodb") ⊎ (u.host ≡ service.host)
  pub supported : (service.scheme ≡ "mongodb") ⊎ (service.scheme ≡ "mongodb+srv")
  pub single_host : contains_comma service.host ≡ false
  pub options :
      (key : String)
      → values_of u.query key
        ≡ (if "authSource" == key then "admin" ∷ [] else values_of service.query key)

values_of-set_value :
    (q : Values) (k v j : String)
    → values_of (set_value q k v) j ≡ (if k == j then v ∷ [] else values_of q j)
unfolding set_value values_of
values_of-set_value q k v j = ground (arith, values_of-del q k j)

account_url-query :
    (urls : UrlLib) (u : Url) (user_name password database hostname : String)
    → ChangesHost urls
    → (account_url urls u user_name password database hostname).query
      ≡ set_value u.query "authSource" "admin"
unfolding account_url
account_url-query urls u user_name password database hostname changes = grind (arith, changes.query)

-- An account URL is printed from a URL with the account's own user and password, its database as
-- the path, the service's scheme and query options, and admin as the authentication source. It
-- exists only for a service of one of the two schemes with a single host, and unless the scheme is
-- mongodb its host is that of the service, whatever the binding hostname.
pub build_account_url-Carries :
    (urls : UrlLib) (service_url user_name password database hostname text : String)
    → ChangesHost urls
    → build_account_url urls service_url user_name password database hostname ≡ ok text
    → Carries urls service_url user_name password database text
unfolding build_account_url validate_service_url
build_account_url-Carries urls service_url user_name password database hostname text changes e =
    elim (Result-cases (urls.parse service_url)) [
      | inr (_, failed) ↦ cc
      | inl (service, parsed) ↦ record {
        service = service;
        u = account_url urls service user_name password database hostname;
        parsed = parsed;
        printed = ground arith;
        identity = unfold account_url in grind (arith, changes.user);
        path = unfold account_url in refl;
        scheme = unfold account_url in grind (arith, changes.scheme);
        srv_host = unfold account_url in ground (arith, eq_iff service.scheme "mongodb");
        supported =
            ground (arith, eq_iff service.scheme "mongodb", eq_iff service.scheme "mongodb+srv");
        single_host = ground arith;
        options = λ key.
            ap (λ q. values_of q key)
              (account_url-query urls service user_name password database hostname changes)
            ∙ values_of-set_value service.query "authSource" "admin" key;
      }
    ]
