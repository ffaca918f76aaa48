-- ===== src/Databricks/Accounts.antt =====
-- GenerateAccount, createAccountCredential, findServicePrincipal and databricksAccountURL of
-- databricks/databricks_binding.go.
pub mod SetUp
pub mod Provision
pub mod Credential
use bindings.Common.{
  is_some, true, config_keys, in_quotes, ◌||◌, if◌then◌else◌, some, get, ◌∷◌, ◌==◌, none, Bool,
  ◌++◌, [], false, GoMap, Option, String, List,
}
use bindings.Databricks.Workspace.{
  create_principal, delete_principal, update_permissions, create_obo_token, create_secret, on_sql,
  list_all, World, Workspace, IntLib, Principal,
}
use bindings.Sdk.{schema, create, user, artifact, BindingMetadata, Artifact, NameOptions, Sdk}
use bindings.Sql.{exec_context, Server}
use bindings.Exec.{
  check, message, lift, describe, GoError, fail, ◌>>=◌, wrap_err, pure, ◌>>◌, err, Done, ok, Exec,
  ◌>>-◌, Result,
}
use bindings.Sql.Plan.{report, on_connection, Session}
use bindings.Databricks.Auth.{hostname}
use bindings.Url.{UrlLib, set_value, Values}
use bindings.Databricks.Quoting.{quote_ident}
use bindings.GoText.{GoText}
use bindings.Databricks.{Databricks}

pub record Names : Type 0 where
  pub sp_name : String
  pub schema_name : String

abbrev name_options : NameOptions
name_options = record { max_len = 0; uppercase = false }

-- A derived binding shares the schema of the account that it derives from.
unfoldable pub shared_schema : Option GoMap → String → Result String
shared_schema none own = ok own
shared_schema (some account) own =
    let base = get account "schema" in
    if base == ""
    then err (message "derived binding base account is missing the schema field")
    else ok base

unfoldable pub account_names : Sdk → GoText → String → Bool → Option GoMap → Result Names
unfolding shared_schema
account_names sdk text binding_id is_staging derived_from =
    sdk.account_name "cl_usr_prd_" "cl_usr_stg_" binding_id is_staging name_options >>- λ sp_name.
    sdk.account_name "cl_sch_prd_" "cl_sch_stg_" binding_id is_staging name_options
    >>- λ own_schema. shared_schema derived_from (text.to_lower own_schema) >>- λ schema_name.
        ok (record { sp_name = text.to_lower sp_name; schema_name = schema_name })

-- values.Encode() and url.QueryEscape
pub record QueryLib : Type 0 where
  pub encode_values : Values → String
  pub query_escape : String → String

unfoldable pub account_url :
    QueryLib → String → String → String → String → String → String → String → String
account_url queries host http_path catalog schema_name auth_type client_id credential =
    let base = set_value (set_value [] "catalog" catalog) "schema" schema_name in
    let is_oauth = auth_type == "oauth-m2m" in
    let params =
      if is_oauth
      then set_value (set_value (set_value base "authType" "OauthM2M") "clientID" client_id)
          "clientSecret" credential
      else base in
    (if is_oauth then "" else "token:" ++ queries.query_escape credential ++ "@")
    ++ host
    ++ ":443"
    ++ http_path
    ++ "?"
    ++ queries.encode_values params

-- The first principal of the name.
unfoldable pub first_named : List Principal → String → Option Principal
first_named [] name = none
first_named (sp ∷ sps) name = if sp.display_name == name then some sp else first_named sps name

-- The statements of GenerateAccount.
module _ (b : Databricks) (n : Names) (sp : Principal) where
  abbrev quoted_catalog : String
  quoted_catalog = quote_ident (get b.service_config "catalog")

  abbrev quoted_schema : String
  quoted_schema = quoted_catalog ++ "." ++ quote_ident n.schema_name

  unfoldable pub create_schema_sql : String
  create_schema_sql = "CREATE SCHEMA " ++ quoted_schema

  unfoldable pub use_catalog_sql : String
  use_catalog_sql =
      "GRANT USE CATALOG ON CATALOG " ++ quoted_catalog ++ " TO " ++ quote_ident sp.application_id

  unfoldable pub all_privileges_sql : String
  all_privileges_sql =
      "GRANT ALL PRIVILEGES ON SCHEMA " ++ quoted_schema ++ " TO " ++ quote_ident sp.application_id

  unfoldable pub use_schema_sql : String
  use_schema_sql =
      "GRANT USE SCHEMA ON SCHEMA " ++ quoted_schema ++ " TO " ++ quote_ident sp.application_id

  module _ (server : Server) where
    abbrev run : String → String → Exec Session Done
    run stmt error_text = on_connection (describe error_text (exec_context server stmt))

    -- What GenerateAccount does on the SQL plane, for a base or a derived binding.
    unfoldable pub create_objects : Bool → Exec Session Done
    create_objects true = do
      run use_catalog_sql ("error granting baseline privileges to " ++ n.sp_name)
      run use_schema_sql ("error granting baseline privileges to " ++ n.sp_name)
      pure tt
    create_objects false = do
      run create_schema_sql ("error creating schema " ++ n.schema_name)
      report (artifact schema n.schema_name)
      run use_catalog_sql ("error granting schema privileges to " ++ n.sp_name)
      run all_privileges_sql ("error granting schema privileges to " ++ n.sp_name)
      pure tt

module _ {Int : Type 0} (sdk : Sdk) (text : GoText) (ints : IntLib Int) (ws : Workspace Int)
    (b : Databricks) where
  unfoldable pub find_service_principal : String → Exec (World Int) (Option Principal)
  unfolding first_named
  find_service_principal display_name =
      list_all ws ("displayName eq " ++ sdk.quote_string_single display_name) >>= λ principals.
      pure (first_named principals display_name)

  abbrev pub credential_type : String
  credential_type =
      if get b.service_config "account_credential_type" == ""
      then "auto"
      else get b.service_config "account_credential_type"

  unfoldable pub token_lifetime : Result Int
  token_lifetime =
      let lifetime = get b.service_config "token_lifetime_seconds" in
      if lifetime == ""
      then ok ints.zero_int
      else wrap_err ("invalid token_lifetime_seconds " ++ in_quotes lifetime)
          (ints.parse_int lifetime)

  -- The authentication type and the credential of the account.
  unfoldable pub create_token : Principal → Exec (World Int) (String × String)
  unfolding token_lifetime
  create_token sp = do
    seconds ← lift token_lifetime
    token ← describe "error creating on-behalf-of token" (
        create_obo_token ws
          (record { application_id = sp.application_id; lifetime_seconds = seconds }))
    pure ("pat", token)

  -- What follows the call for an OAuth secret.
  abbrev pub after_secret : Principal → Result String → Exec (World Int) (String × String)
  after_secret sp (ok secret) = pure ("oauth-m2m", secret)
  after_secret sp (err e) =
      if credential_type == "oauth"
      then fail (GoError.wrap "error creating service principal OAuth secret" e)
      else create_token sp

  unfoldable pub create_account_credential : Principal → Exec (World Int) (String × String)
  unfolding create_token
  create_account_credential sp w =
      if credential_type == "oauth" || credential_type == "auto"
      then (let (answer, w') = create_secret ws sp.id w in after_secret sp answer w')
      else create_token sp w

  abbrev pub account_of : QueryLib → UrlLib → Names → Principal → String × String → GoMap
  account_of queries urls n sp (auth_type, credential) =
      let host = hostname text urls (get b.service_config "host") in
      let http_path = get b.service_config "http_path" in
      let catalog = get b.service_config "catalog" in
      let url =
        account_url queries host http_path catalog n.schema_name auth_type sp.application_id
          credential in
      ("url", url)
      ∷ ("url_direct", url)
      ∷ ("host", host)
      ∷ ("http_path", http_path)
      ∷ ("catalog", catalog)
      ∷ ("schema", n.schema_name)
      ∷ ("auth_type", auth_type)
      ∷ ("client_id", sp.application_id)
      ∷ ((if auth_type == "oauth-m2m" then "client_secret" else "token"), credential)
      ∷ []

  -- `artifacts = append(artifacts, …)` and the SQL plane
  abbrev pub on_artifacts : {A : Type 0} → Exec Session A → Exec (World Int) A
  on_artifacts m = on_sql ws λ server. m

  -- From the new principal on.
  unfoldable pub set_up : Bool → Names → Principal → Exec (World Int) (String × String)
  unfolding create_account_credential create_objects
  set_up is_derived n sp = do
    on_artifacts (report (artifact user n.sp_name))
    credential ←
        describe ("error creating credential for service principal " ++ n.sp_name)
          (create_account_credential sp)
    describe ("error granting warehouse access to service principal " ++ n.sp_name)
        (update_permissions ws b.warehouse_id sp.application_id)
    on_sql ws (λ server. create_objects b n sp server is_derived)
    pure credential

  -- No principal may have the name yet.
  abbrev pub absent : Names → Option Principal → Exec (World Int) Done
  absent n none = pure tt
  absent n (some _) =
      fail (message ("databricks service principal " ++ n.sp_name ++ " already exists"))

  unfoldable pub generate_account :
      QueryLib → UrlLib → String → BindingMetadata → Option GoMap → Bool → Exec (World Int) GoMap
  unfolding account_names find_service_principal set_up
  generate_account queries urls binding_id metadata derived_from is_staging = do
    check (sdk.verify_keys (config_keys metadata.config) [] [])
    if b.warehouse_id == ""
        then fail (
            message
              "could not determine the warehouse id from http_path; set the warehouse_id service config")
        else pure tt
    n ← lift (account_names sdk text binding_id is_staging derived_from)
    existing ←
        describe ("error checking service principal " ++ n.sp_name)
          (find_service_principal n.sp_name)
    absent n existing
    sp ← describe ("error creating service principal " ++ n.sp_name) (create_principal ws n.sp_name)
    credential ← set_up (is_some derived_from) n sp
    pure (account_of queries urls n sp credential)
