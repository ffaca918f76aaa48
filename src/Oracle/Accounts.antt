-- ===== src/Oracle/Accounts.antt =====
-- GenerateAccount, defaultTablespace and DeleteArtifact of oracle/oracle_binding.go.
pub mod SetUp
pub mod Reported
pub mod Dropped
use bindings.Common.{
  is_some, ◌∷◌, [], ◌==◌, get, if◌then◌else◌, none, ℕ, some, ◌++◌, Bool, String, GoMap, Option,
}
use bindings.Exec.{
  message, pure, err, fail, wrap_err, lift, ◌>>=◌, describe, ◌>>◌, ok, Exec, Result,
}
use bindings.Sql.Perms.{row_present, inspect}
use bindings.Sql.{query_row, exec_context, History, Server}
use bindings.Sql.Plan.{on_connection, Session, report}
use bindings.Oracle.{quote_ident, Oracle}
use bindings.Sdk.{Artifact, Sdk, NameOptions, user}
use mathlib.Core.Bool.{true, false}

unfoldable pub shared_schema : Option GoMap → String → Result String
shared_schema none own = ok own
shared_schema (some account) own =
    let base = get account "schema" in
    if base == ""
    then err (message "derived binding base account is missing the schema field")
    else ok base

abbrev pub name_options : NameOptions
name_options = record { max_len = 30; uppercase = true }

module _ (sdk : Sdk) where
  -- The statements of GenerateAccount; a password is quoted as an identifier.
  unfoldable pub create_user_sql : String → String → String
  create_user_sql name password =
      "CREATE USER " ++ quote_ident sdk name ++ " IDENTIFIED BY " ++ quote_ident sdk password

  unfoldable pub quota_sql : String → String → String
  quota_sql name tablespace =
      "ALTER USER " ++ quote_ident sdk name ++ " QUOTA UNLIMITED ON " ++ quote_ident sdk tablespace

  unfoldable pub grant_create_sql : String → String
  grant_create_sql name =
      "GRANT CREATE SESSION, CREATE TABLE, CREATE VIEW, CREATE SEQUENCE TO " ++ quote_ident sdk name

  unfoldable pub grant_session_sql : String → String
  grant_session_sql name = "GRANT CREATE SESSION TO " ++ quote_ident sdk name

  unfoldable pub trigger_sql : String → String → String
  trigger_sql name schema_name =
      "CREATE OR REPLACE TRIGGER "
      ++ quote_ident sdk name
      ++ "."
      ++ quote_ident sdk "CL_LOGON_SCHEMA_TRG"
      ++ " AFTER LOGON ON "
      ++ quote_ident sdk name
      ++ ".SCHEMA\nBEGIN\n  EXECUTE IMMEDIATE 'ALTER SESSION SET CURRENT_SCHEMA="
      ++ quote_ident sdk schema_name
      ++ "';\nEND;"

abbrev pub created_user : String → Artifact
created_user name = record { kind = user; name = name }

module _ (sdk : Sdk) (server : Server) where
  unfoldable pub default_tablespace : Exec History String
  default_tablespace = describe "error querying default tablespace" (
      query_row server
        "SELECT property_value FROM database_properties WHERE property_name = 'DEFAULT_PERMANENT_TABLESPACE'"
        [])

  abbrev pub run : String → String → Exec Session Unit
  run stmt text = on_connection (describe text (exec_context server stmt))

  -- What is done after the user was created and reported.
  unfoldable pub set_up_base : String → Exec Session Unit
  set_up_base name = do
    tablespace ← on_connection default_tablespace
    run (quota_sql sdk name tablespace) ("error setting tablespace quota for user " ++ name)
    run (grant_create_sql sdk name) ("error granting create privileges to user " ++ name)

  unfoldable pub set_up_derived : String → String → Exec Session Unit
  set_up_derived name schema_name = do
    run (grant_session_sql sdk name) ("error granting session privilege to user " ++ name)
    run (trigger_sql sdk name schema_name) ("error creating logon trigger for user " ++ name)

  unfoldable pub create_objects : Bool → String → String → String → Exec Session Unit
  unfolding set_up_base set_up_derived
  create_objects is_derived name schema_name password = do
    run (create_user_sql sdk name password) ("error creating user " ++ name)
    report (created_user name)
    if is_derived then set_up_derived name schema_name else set_up_base name

  -- `random_hex` is binding.RandomHex.
  unfoldable pub generate_account :
      Oracle → (ℕ → Result String) → String → Option GoMap → Bool → Exec Session GoMap
  unfolding shared_schema create_objects
  generate_account b random_hex binding_id derived_from is_staging = do
    password ← lift (wrap_err "error generating random password" (random_hex 15))
    name ← lift (sdk.account_name "CP_" "CS_" binding_id is_staging name_options)
    schema_name ← lift (shared_schema derived_from name)
    create_objects (is_some derived_from) name schema_name password
    pair ← lift (
        wrap_err "error building account url" (
          sdk.account_urls (get b.service_config "url") name password
            (get b.service_config "binding_hostname")))
    pure (("url", pair.0) ∷ ("url_direct", pair.1) ∷ ("user", name) ∷ ("schema", schema_name) ∷ [])

  unfoldable pub drop_user_sql : String → String
  drop_user_sql name = "DROP USER " ++ quote_ident sdk name ++ " CASCADE"

  unfoldable pub drop_user : String → Exec History Unit
  unfolding drop_user_sql
  drop_user name = do
    exists ←
        inspect (row_present ("error checking user " ++ name))
          (query_row server "SELECT 1 FROM all_users WHERE username = :1" (name ∷ []))
    if exists
        then describe ("error dropping user " ++ name) (exec_context server (drop_user_sql name))
        else pure tt

  unfoldable pub delete_artifact : Artifact → Exec History Unit
  unfolding drop_user
  delete_artifact a =
      if a.name == "" then fail (message "artifact name is required") else elim a.kind [
        | user ↦ drop_user a.name
        | kind ↦ fail (message ("unsupported oracle artifact type " ++ sdk.artifact_type_text kind))
      ]
