-- ===== src/Snowflake/Accounts.antt =====
-- GenerateAccount and DeleteArtifact of snowflake/snowflake_binding.go.
pub mod Provision
pub mod Rollback
use bindings.Common.{
  [], ◌∷◌, is_some, ◌==◌, if◌then◌else◌, get, ◌++◌, GoMap, Bool, Option, String, some, none, true,
  false,
}
use bindings.Exec.{
  fail, message, lift, pure, describe, ◌>>=◌, err, ◌>>◌, ok, ◌>>-◌, Exec, wrap_err, Result,
}
use bindings.Snowflake.{quote_ident, Snowflake}
use bindings.GoText.{GoText}
use bindings.Sql.{History, Server, exec_context}
use bindings.Sql.Plan.{Session, report, on_connection}
use bindings.Sdk.{Sdk, Artifact, ArtifactType, NameOptions, artifact, user, role, schema}
use bindings.Snowflake.Auth.{Config, AuthType, KeyLib, base_config}

pub record Names : Type 0 where
  pub role_name : String
  pub user_name : String
  pub schema_name : String

abbrev name_options : NameOptions
name_options = record { max_len = 0; uppercase = true }

-- A derived binding shares the schema of the account that it derives from.
unfoldable pub shared_schema : Option GoMap → String → Result String
shared_schema none own = ok own
shared_schema (some account) own =
    let base = get account "schema" in
    if base == ""
    then err (message "derived binding base account is missing the schema field")
    else ok base

unfoldable pub account_names : Sdk → String → Bool → Option GoMap → Result Names
unfolding shared_schema
account_names sdk binding_id is_staging derived_from =
    sdk.account_name "CL_ROL_PRD_" "CL_ROL_STG_" binding_id is_staging name_options >>- λ role_name.
    sdk.account_name "CL_USR_PRD_" "CL_USR_STG_" binding_id is_staging name_options >>- λ user_name.
    sdk.account_name "CL_SCH_PRD_" "CL_SCH_STG_" binding_id is_staging name_options
    >>- λ own_schema. shared_schema derived_from own_schema >>- λ schema_name.
        ok (record { role_name = role_name; user_name = user_name; schema_name = schema_name })

-- The key pair of an account, with its public half in base 64.
pub record KeyPair (Key : Type 0) : Type 0 where
  pub private_key : Key
  pub public_key_b64 : String

unfoldable pub generate_key_pair : {Key : Type 0} → KeyLib Key → Result (KeyPair Key)
generate_key_pair keys =
    wrap_err "error generating account key pair" (keys.generate_key 2048) >>- λ key.
    wrap_err "error encoding account public key" (keys.marshal_public_key key) >>- λ der.
    ok (record { private_key = key; public_key_b64 = keys.encode_base64 der })

-- The statements of GenerateAccount.
module _ (sdk : Sdk) (text : GoText) (b : Snowflake) (n : Names) where
  abbrev quoted_role : String
  quoted_role = quote_ident sdk text n.role_name

  abbrev quoted_schema : String
  quoted_schema =
      quote_ident sdk text (get b.service_config "database")
      ++ "."
      ++ quote_ident sdk text n.schema_name

  abbrev quoted_warehouse : String
  quoted_warehouse = quote_ident sdk text (get b.service_config "warehouse")

  unfoldable pub create_role_sql : String
  create_role_sql = "CREATE ROLE " ++ quoted_role

  unfoldable pub grant_database_sql : String
  grant_database_sql =
      "GRANT USAGE ON DATABASE "
      ++ quote_ident sdk text (get b.service_config "database")
      ++ " TO ROLE "
      ++ quoted_role

  unfoldable pub grant_warehouse_sql : String
  grant_warehouse_sql =
      "GRANT USAGE ON WAREHOUSE " ++ quoted_warehouse ++ " TO ROLE " ++ quoted_role

  unfoldable pub create_schema_sql : String
  create_schema_sql = "CREATE SCHEMA " ++ quoted_schema

  unfoldable pub grant_schema_sql : String
  grant_schema_sql =
      "GRANT USAGE, CREATE TABLE, CREATE VIEW, CREATE SEQUENCE ON SCHEMA " ++ quoted_schema
      ++ " TO ROLE " ++ quoted_role

  unfoldable pub create_user_sql : String → String
  create_user_sql public_key_b64 =
      "CREATE USER "
      ++ quote_ident sdk text n.user_name
      ++ " RSA_PUBLIC_KEY='"
      ++ public_key_b64
      ++ "' TYPE=SERVICE DEFAULT_ROLE="
      ++ quoted_role
      ++ " DEFAULT_NAMESPACE="
      ++ quoted_schema
      ++ " DEFAULT_WAREHOUSE="
      ++ quoted_warehouse

  unfoldable pub grant_role_sql : String
  grant_role_sql = "GRANT ROLE " ++ quoted_role ++ " TO USER " ++ quote_ident sdk text n.user_name

module _ (sdk : Sdk) (text : GoText) (server : Server) (b : Snowflake) where
  abbrev run : String → String → Exec Session Unit
  run stmt error_text = on_connection (describe error_text (exec_context server stmt))

  unfoldable pub create_account_user : Names → String → Exec Session Unit
  create_account_user n public_key_b64 = do
    run (create_user_sql sdk text b n public_key_b64) ("error creating user " ++ n.user_name)
    report (artifact user n.user_name)
    run (grant_role_sql sdk text b n)
        ("error granting role " ++ n.role_name ++ " to user " ++ n.user_name)
    pure tt

  -- Everything that GenerateAccount does on the server, for a base or a derived binding.
  unfoldable pub create_objects : Bool → Names → String → Exec Session Unit
  unfolding create_account_user
  create_objects is_derived n public_key_b64 = do
    run (create_role_sql sdk text b n) ("error creating role " ++ n.role_name)
    report (artifact role n.role_name)
    run (grant_database_sql sdk text b n) ("error granting usage to role " ++ n.role_name)
    run (grant_warehouse_sql sdk text b n) ("error granting usage to role " ++ n.role_name)
    if is_derived then create_account_user n public_key_b64 else do
      run (create_schema_sql sdk text b n) ("error creating schema " ++ n.schema_name)
      report (artifact schema n.schema_name)
      run (grant_schema_sql sdk text b n)
          ("error granting create privileges on schema " ++ n.schema_name)
      create_account_user n public_key_b64

  module _ {Key : Type 0} (keys : KeyLib Key) where
    -- The config of the account's own connection.
    unfoldable pub account_config : Names → Key → Config Key
    account_config n key = record {
      account = get b.service_config "account";
      user = n.user_name;
      database = get b.service_config "database";
      schema = n.schema_name;
      warehouse = get b.service_config "warehouse";
      role = n.role_name;
      authenticator = AuthType.jwt;
      password = "";
      private_key = some key;
      token = "";
      oauth_client_id = "";
      oauth_client_secret = "";
      oauth_token_request_url = "";
      oauth_scope = "";
      workload_identity_provider = "";
      workload_identity_entra_resource = "";
    }

    unfoldable pub generate_account : String → Option GoMap → Bool → Exec Session GoMap
    unfolding account_config
    generate_account binding_id derived_from is_staging = do
      n ← lift (account_names sdk binding_id is_staging derived_from)
      pair ← lift (generate_key_pair keys)
      create_objects (is_some derived_from) n pair.public_key_b64
      dsn ←
          lift
            (wrap_err "error building account url" (keys.dsn (account_config n pair.private_key)))
      pure (
          ("url", dsn)
          ∷ ("url_direct", dsn)
          ∷ ("user", n.user_name)
          ∷ ("role", n.role_name)
          ∷ ("schema", n.schema_name)
          ∷ ("database", get b.service_config "database")
          ∷ ("warehouse", get b.service_config "warehouse")
          ∷ ("account", get b.service_config "account")
          ∷ ("private_key", keys.encode_private_key pair.private_key)
          ∷ [])

  -- The statement of DeleteArtifact, if it supports the artifact.
  unfoldable pub drop_sql : Artifact → Result String
  drop_sql a = elim a.kind [
    | role ↦ ok ("DROP ROLE IF EXISTS " ++ quote_ident sdk text a.name)
    | user ↦ ok ("DROP USER IF EXISTS " ++ quote_ident sdk text a.name)
    | schema ↦ ok (
        "DROP SCHEMA IF EXISTS "
        ++ quote_ident sdk text (get b.service_config "database")
        ++ "."
        ++ quote_ident sdk text a.name
        ++ " CASCADE")
    | kind ↦ err (message ("unsupported snowflake artifact type " ++ sdk.artifact_type_text kind))
  ]

  unfoldable pub delete_artifact : Artifact → Exec History Unit
  unfolding drop_sql
  delete_artifact a = if a.name == "" then fail (message "artifact name is required") else do
    stmt ← lift (drop_sql a)
    describe ("error dropping " ++ sdk.artifact_type_text a.kind ++ " " ++ a.name)
        (exec_context server stmt)
