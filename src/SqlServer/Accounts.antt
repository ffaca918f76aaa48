-- ===== src/SqlServer/Accounts.antt =====
-- GenerateAccount and sqlserverAccountURLs of sqlserver/sqlserver_binding.go.
pub mod Provision
pub mod Urls
use bindings.Sdk.{artifact, Sdk, Artifact, ArtifactType, user, login, schema}
use bindings.Common.{
  is_some, [], ◌||◌, none, get, some, if◌then◌else◌, ◌∷◌, ◌==◌, Bool, GoMap, ◌++◌, ℕ, String,
  Option,
}
use bindings.Exec.{
  message, wrap_err, err, lift, pure, ◌>>=◌, ◌>>◌, ok, describe, ◌>>-◌, Exec, Result,
}
use bindings.SqlServer.{quote_text, quote_ident, SqlServer}
use bindings.Url.{Values, UrlLib}
use bindings.Sql.{History, Server, exec_context}
use bindings.Sql.Plan.{Session, report, on_connection}
use mathlib.Core.Bool.{true, false}

pub record Names : Type 0 where
  pub login_name : String
  pub user_name : String
  pub schema_name : String

-- A derived binding shares the schema of the account that it derives from.
unfoldable pub shared_schema : Option GoMap → String → Result String
shared_schema none own = ok own
shared_schema (some account) own =
    let base = get account "schema" in
    if base == ""
    then err (message "derived binding base account is missing the schema field")
    else ok base

unfoldable pub account_names : String → Bool → Option GoMap → Result Names
unfolding shared_schema
account_names binding_id is_staging derived_from =
    let stage = if is_staging then "stg_" else "prd_" in
    shared_schema derived_from ("cl_sch_" ++ stage ++ binding_id) >>- λ schema_name. ok (record {
      login_name = "cl_lgn_" ++ stage ++ binding_id;
      user_name = "cl_usr_" ++ stage ++ binding_id;
      schema_name = schema_name;
    })

-- The query keys, in lower case, by which the driver takes credentials.
abbrev pub is_credential : String → Bool
is_credential key =
    key == "user id"
    || (key == "user"
        || (key == "uid" || (key == "password" || (key == "pwd" || key == "change password"))))

-- The loop over the query; `to_lower` is strings.ToLower.
unfoldable pub strip_credentials : (String → String) → Values → Values
strip_credentials to_lower [] = []
strip_credentials to_lower ((key, vs) ∷ q) =
    let rest = strip_credentials to_lower q in
    if is_credential (to_lower key) then rest else (key, vs) ∷ rest

-- sqlserverAccountURLs: the pair (url, url_direct)
unfoldable pub account_urls :
    Sdk → UrlLib → (String → String) → String → String → String → String → Result (String × String)
unfolding strip_credentials
account_urls sdk urls to_lower admin_url user_name password hostname = urls.parse admin_url >>- λ u.
    sdk.account_urls (urls.to_string (record u { query = strip_credentials to_lower u.query }))
      user_name password hostname

-- The statements of GenerateAccount.
module _ (sdk : Sdk) (b : SqlServer) (n : Names) where
  unfoldable pub create_login_sql : String → String
  create_login_sql password =
      "CREATE LOGIN "
      ++ quote_ident sdk n.login_name
      ++ " WITH PASSWORD = "
      ++ quote_text sdk password
      ++ ", CHECK_POLICY = OFF, DEFAULT_DATABASE = "
      ++ quote_ident sdk b.database

  unfoldable pub create_user_sql : String
  create_user_sql =
      "CREATE USER "
      ++ quote_ident sdk n.user_name
      ++ " FOR LOGIN "
      ++ quote_ident sdk n.login_name
      ++ " WITH DEFAULT_SCHEMA = "
      ++ quote_ident sdk n.schema_name

  unfoldable pub create_schema_sql : String
  create_schema_sql =
      "CREATE SCHEMA "
      ++ quote_ident sdk n.schema_name
      ++ " AUTHORIZATION "
      ++ quote_ident sdk n.user_name

  unfoldable pub grant_create_sql : String
  grant_create_sql = "GRANT CREATE TABLE, CREATE VIEW TO " ++ quote_ident sdk n.user_name

module _ (sdk : Sdk) (server : Server) (b : SqlServer) where
  abbrev run : String → String → Exec Session Unit
  run stmt text = on_connection (describe text (exec_context server stmt))

  -- Everything that GenerateAccount does on the server, for a base or a derived binding.
  unfoldable pub create_objects : Bool → Names → String → Exec Session Unit
  create_objects is_derived n password = do
    run (create_login_sql sdk b n password) ("error creating login " ++ n.login_name)
    report (artifact login n.login_name)
    run (create_user_sql sdk b n) ("error creating user " ++ n.user_name)
    report (artifact user n.user_name)
    if is_derived then pure tt else do
      run (create_schema_sql sdk b n) ("error creating schema " ++ n.schema_name)
      report (artifact schema n.schema_name)
      run (grant_create_sql sdk b n) ("error granting create privileges to user " ++ n.user_name)
      pure tt

  -- `random_hex` is binding.RandomHex.
  unfoldable pub generate_account :
      UrlLib
      → (String → String)
      → (ℕ → Result String)
      → String
      → Option GoMap
      → Bool
      → Exec Session GoMap
  generate_account urls to_lower random_hex binding_id derived_from is_staging = do
    password ← lift (wrap_err "error generating random password" (random_hex 32))
    n ← lift (account_names binding_id is_staging derived_from)
    create_objects (is_some derived_from) n password
    pair ← lift (
        wrap_err "error building account url" (
          account_urls sdk urls to_lower (get b.service_config "url") n.login_name password
            (get b.service_config "binding_hostname")))
    pure (
        ("url", pair.0)
        ∷ ("url_direct", pair.1)
        ∷ ("login", n.login_name)
        ∷ ("user", n.user_name)
        ∷ ("schema", n.schema_name)
        ∷ ("database", b.database)
        ∷ [])
