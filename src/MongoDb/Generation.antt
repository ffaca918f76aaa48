-- ===== src/MongoDb/Generation.antt =====
-- GenerateAccount of mongodb/mongodb_binding.go, for both kinds of service.
pub mod Returns
pub mod Names
use bindings.Common.{
  ◌∷◌, [], config_keys, none, is_some, ◌==◌, if◌then◌else◌, Bool, get, some, ℕ, String, GoMap,
  Option,
}
use bindings.Exec.{answered, message, ◌>>-◌, check, Done, err, wrap_err, ok, Result}
use bindings.MongoDb.Atlas.{generate_atlas_account, Run, Clock}
use bindings.MongoDb.Urls.{build_account_url}
use bindings.Sdk.{BindingMetadata, Sdk}
use bindings.MongoDb.Accounts.{Session, generate_self_hosted, account_names, MongoDb}
use bindings.Url.{UrlLib}
use bindings.MongoDb.Client.{Cluster}

-- A derived binding shares the database of the account that it derives from.
unfoldable pub shared_database : Option GoMap → String → Result String
shared_database none own = ok own
shared_database (some account) own =
    let base = get account "database" in
    if base == ""
    then err (message "derived binding base account is missing the database field")
    else ok base

module _ (sdk : Sdk) (cluster : Cluster) (clock : Clock) (urls : UrlLib)
    (random_hex : ℕ → Result String) (b : MongoDb) where
  -- The account, once its user is there.
  unfoldable pub account_of : String → String → String → Result GoMap
  account_of name password database =
      let service_url = get b.service_config "url" in
      wrap_err "error building account url"
        (build_account_url urls service_url name password database "")
      >>- λ direct.
          wrap_err "error building binding account url" (
            build_account_url urls service_url name password database
              (get b.service_config "binding_hostname"))
          >>- λ url. ok (
              ("url", url)
              ∷ ("url_direct", direct)
              ∷ ("username", name)
              ∷ ("password", password)
              ∷ ("database", database)
              ∷ [])

  abbrev pub then_account : Run Session Done → Result GoMap → Run Session GoMap
  then_account none account = none
  then_account (some (err e, s)) account = some (err e, s)
  then_account (some (ok _, s)) account = some (account, s)

  -- The user, the password and the database of the account.
  unfoldable pub identity :
      String → BindingMetadata → Option GoMap → Bool → Result (String × String × String)
  unfolding shared_database account_names
  identity binding_id metadata derived_from is_staging =
      answered {0} (sdk.verify_keys (config_keys metadata.config) [] []) >>- λ _.
      wrap_err "error generating random password" (random_hex 32) >>- λ password.
      shared_database derived_from (account_names binding_id is_staging).1 >>- λ database.
      ok ((account_names binding_id is_staging).0, password, database)

  abbrev pub generate_for :
      ℕ → Bool → Result (String × String × String) → Session → Run Session GoMap
  generate_for fuel is_derived (err e) s = some (err e, s)
  generate_for fuel is_derived (ok (name, password, database)) s =
      then_account
        (if b.is_atlas
          then generate_atlas_account cluster clock urls b sdk fuel name password database
              is_derived s
          else some (generate_self_hosted cluster name password database is_derived s))
        (account_of name password database)

  unfoldable pub generate_account :
      ℕ → String → BindingMetadata → Option GoMap → Bool → Session → Run Session GoMap
  unfolding identity account_of generate_self_hosted
  generate_account fuel binding_id metadata derived_from is_staging s =
      generate_for fuel (is_some derived_from)
        (identity binding_id metadata derived_from is_staging) s
