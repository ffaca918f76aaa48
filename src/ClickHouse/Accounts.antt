-- ===== src/ClickHouse/Accounts.antt =====
-- GenerateAccount, clickhouseAccountURLs and DeleteArtifact of clickhouse/clickhouse_binding.go.
pub mod Provision
pub mod Urls
pub mod Rollback
use bindings.Sdk.{
  artifact, Sdk, NameOptions, Artifact, ArtifactType, user, role, database, login, schema,
}
use bindings.Common.{
  is_some, ℕ, String, ◌++◌, Bool, true, false, Option, none, some, List, [], ◌∷◌, ◌==◌,
  if◌then◌else◌, GoMap, get,
}
use bindings.Exec.{
  ◌>>-◌, GoError, message, wrap_err, Result, ok, err, Exec, pure, fail, lift, describe, ◌>>=◌, ◌>>◌,
}
use bindings.Sql.{History, Server, exec_context}
use bindings.Sql.Plan.{Session, report, on_connection}
use bindings.Url.{Url, UrlLib, Values, del}
use bindings.ClickHouse.{ClickHouse, full_db_privileges, quote_ident, on_cluster}
use bindings.ClickHouse.Password.{Random, generate_password}

-- The names of an account's objects.
pub record Names : Type 0 where
  pub user_name : String
  pub role_name : String
  pub database_name : String

abbrev name_options : NameOptions
name_options = record { max_len = 0; uppercase = false }

-- A derived binding shares the database of the account that it derives from.
unfoldable pub shared_database : Option GoMap → String → Result String
shared_database none own = ok own
shared_database (some account) own =
    let base = get account "database" in
    if base == ""
    then err (message "derived binding base account is missing the database field")
    else ok base

unfoldable pub account_names : Sdk → String → Bool → Option GoMap → Result Names
unfolding shared_database
account_names sdk binding_id is_staging derived_from =
    sdk.account_name "cl_usr_prd_" "cl_usr_stg_" binding_id is_staging name_options >>- λ user_name.
    sdk.account_name "cl_rol_prd_" "cl_rol_stg_" binding_id is_staging name_options >>- λ role_name.
    sdk.account_name "cl_db_prd_" "cl_db_stg_" binding_id is_staging name_options
    >>- λ own_database. shared_database derived_from own_database >>- λ database_name.
        ok (record { user_name = user_name; role_name = role_name; database_name = database_name })

-- The statements of GenerateAccount.
module _ (sdk : Sdk) (b : ClickHouse) (n : Names) where
  unfoldable pub create_role_sql : String
  create_role_sql = "CREATE ROLE " ++ quote_ident sdk n.role_name ++ on_cluster sdk b

  unfoldable pub create_database_sql : String
  create_database_sql = "CREATE DATABASE " ++ quote_ident sdk n.database_name ++ on_cluster sdk b

  unfoldable pub grant_database_sql : String
  grant_database_sql =
      "GRANT"
      ++ on_cluster sdk b
      ++ " "
      ++ full_db_privileges
      ++ " ON "
      ++ quote_ident sdk n.database_name
      ++ ".* TO "
      ++ quote_ident sdk n.role_name

  -- `password_hash` is the uppercase hex SHA-256 of the password.
  unfoldable pub create_user_sql : String → String
  create_user_sql password_hash =
      "CREATE USER "
      ++ quote_ident sdk n.user_name
      ++ on_cluster sdk b
      ++ " IDENTIFIED WITH sha256_hash BY '"
      ++ password_hash
      ++ "' DEFAULT ROLE "
      ++ quote_ident sdk n.role_name
      ++ " DEFAULT DATABASE "
      ++ quote_ident sdk n.database_name

  unfoldable pub grant_role_sql : String
  grant_role_sql =
      "GRANT"
      ++ on_cluster sdk b
      ++ " "
      ++ quote_ident sdk n.role_name
      ++ " TO "
      ++ quote_ident sdk n.user_name

-- What clickhouseAccountURLs makes of the parsed URL of the service.
unfoldable pub account_url : Url → String → String → String → Url
account_url u user_name password database_name = record u {
  user = some (user_name, password);
  path = "/" ++ database_name;
  query = del (del (del u.query "username") "password") "database";
}

-- clickhouseAccountURLs: the pair (url, url_direct)
unfoldable pub account_urls :
    UrlLib → String → String → String → String → String → Result (String × String)
unfolding account_url
account_urls urls admin_url user_name password database_name binding_hostname =
    urls.parse admin_url >>- λ admin.
    let u = account_url admin user_name password database_name in
    ok (urls.to_string (urls.set_hostname u binding_hostname), urls.to_string u)

module _ (sdk : Sdk) (server : Server) (b : ClickHouse) where
  abbrev run : String → String → Exec Session Unit
  run stmt text = on_connection (describe text (exec_context server stmt))

  unfoldable pub create_account_user : Names → String → Exec Session Unit
  create_account_user n password_hash = do
    run (create_user_sql sdk b n password_hash) ("error creating user " ++ n.user_name)
    report (artifact user n.user_name)
    run (grant_role_sql sdk b n)
        ("error granting role " ++ n.role_name ++ " to user " ++ n.user_name)
    pure tt

  -- Everything that GenerateAccount does on the server, for a base or a derived binding.
  unfoldable pub create_objects : Bool → Names → String → Exec Session Unit
  unfolding create_account_user
  create_objects is_derived n password_hash = do
    run (create_role_sql sdk b n) ("error creating role " ++ n.role_name)
    report (artifact role n.role_name)
    if is_derived then create_account_user n password_hash else do
      run (create_database_sql sdk b n) ("error creating database " ++ n.database_name)
      report (artifact database n.database_name)
      run (grant_database_sql sdk b n) ("error granting privileges on database " ++ n.database_name)
      create_account_user n password_hash

  -- `sha256_hex` is the uppercase hex digest of a text; `k` draws were made before.
  unfoldable pub generate_account :
      UrlLib → (String → String) → Random → ℕ → String → Option GoMap → Bool → Exec Session GoMap
  generate_account urls sha256_hex random k binding_id derived_from is_staging = do
    password ← lift (wrap_err "error generating random password" (generate_password random k).0)
    n ← lift (account_names sdk binding_id is_staging derived_from)
    create_objects (is_some derived_from) n (sha256_hex password)
    pair ← lift (
        wrap_err "error building account url" (
          account_urls urls (get b.service_config "url") n.user_name password n.database_name
            (get b.service_config "binding_hostname")))
    pure (
        ("url", pair.0)
        ∷ ("url_direct", pair.1)
        ∷ ("user", n.user_name)
        ∷ ("role", n.role_name)
        ∷ ("database", n.database_name)
        ∷ [])

  -- The statement of DeleteArtifact, if it supports the artifact.
  unfoldable pub drop_sql : Artifact → Result String
  drop_sql a = elim a.kind [
    | role ↦ ok ("DROP ROLE IF EXISTS " ++ quote_ident sdk a.name ++ on_cluster sdk b)
    | user ↦ ok ("DROP USER IF EXISTS " ++ quote_ident sdk a.name ++ on_cluster sdk b)
    | database ↦ ok ("DROP DATABASE IF EXISTS " ++ quote_ident sdk a.name ++ on_cluster sdk b)
    | kind ↦ err (message ("unsupported clickhouse artifact type " ++ sdk.artifact_type_text kind))
  ]

  unfoldable pub delete_artifact : Artifact → Exec History Unit
  unfolding drop_sql
  delete_artifact a = if a.name == "" then fail (message "artifact name is required") else do
    stmt ← lift (drop_sql a)
    describe ("error dropping " ++ sdk.artifact_type_text a.kind ++ " " ++ a.name)
        (exec_context server stmt)
