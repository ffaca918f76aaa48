-- ===== src/Snowflake/Service.antt =====
-- InitializeService, CloseService, ApplyGrants, RevokeGrants, RunCommand and the health checks of
-- snowflake/snowflake_binding.go.
pub mod Connections
use bindings.Exec.{Done, describe, wrap_err, lift, ◌>>=◌, check, ◌>>◌, pure, Result, Exec}
use bindings.Sql.Commands.{SqlBinding}
use bindings.Snowflake.Auth.{auth_config, KeyLib}
use bindings.Common.{config_keys, get, Bool, [], ◌∷◌, GoMap, String, Option, List, some, none}
use bindings.Snowflake.Perms.{apply_perms}
use bindings.Sdk.{Grant, BindingMetadata, GrantEngine, Sdk, read, create, full}
use bindings.Snowflake.{Snowflake}
use bindings.Sql.{Cursor, History, Server, sql_open, ping_context, close_on_error, close_conn}
use bindings.GoText.{GoText}

abbrev required_keys : List String
required_keys = "account" ∷ "user" ∷ "database" ∷ "warehouse" ∷ []

abbrev optional_keys : List String
optional_keys =
    "role" ∷ "authenticator" ∷ "password" ∷ "private_key" ∷ "token" ∷ "oauth_client_id"
    ∷ "oauth_client_secret" ∷ "oauth_token_url" ∷ "oauth_scope" ∷ "workload_identity_provider"
    ∷ "workload_identity_entra_resource" ∷ []

module _ (sdk : Sdk) (text : GoText) (server : Server) where
  -- The service that a successful InitializeService leaves, the connection being its history.
  unfoldable pub initialize_service : {Key : Type 0} → KeyLib Key → GoMap → Exec History Snowflake
  initialize_service keys service_config = do
    check (sdk.verify_keys (config_keys service_config) required_keys optional_keys)
    cfg ← lift (auth_config keys text service_config)
    dsn ← lift (wrap_err "error building snowflake connection config" (keys.dsn cfg))
    describe "error opening admin connection" (sql_open server dsn)
    close_on_error server (describe "error verifying snowflake connection" (ping_context server))
    pure (record { service_config = service_config })

  -- `none` is a service that has not been initialized.
  unfoldable pub close_service : Option Snowflake → Exec History Unit
  close_service none = pure tt
  close_service (some b) = close_conn server

  module _ (engine : GrantEngine History) (columns : Cursor → Result (List String))
      (b : Snowflake) where
    unfoldable pub apply_grants :
        GoMap → BindingMetadata → Bool → Exec History engine.GrantApplyResult
    apply_grants account metadata reapply_all =
        engine.apply_grants_incremental_safe metadata (read ∷ create ∷ full ∷ []) reapply_all
          λ op batch.
            apply_perms sdk text server columns b op batch (get account "schema")
              (get account "role")

    unfoldable pub revoke_grants : GoMap → List Grant → List Grant → Exec History Unit
    revoke_grants account revokes regrants =
        engine.revoke_then_regrant revokes regrants λ op grants.
          apply_perms sdk text server columns b op grants (get account "schema")
            (get account "role")
          >>= λ _. pure tt

-- RunCommand, CheckHealth and CheckBindingHealth, at the account of a binding.
module _ {Json : Type 0} (sqlbinding : SqlBinding Json) where
  unfoldable pub run_command : GoMap → String → Exec History Json
  run_command account command =
      sqlbinding.run_command "snowflake" (get account sqlbinding.account_key_url_direct) command
        ("SHOW" ∷ "DESC" ∷ "DESCRIBE" ∷ "LIST" ∷ "CALL" ∷ [])

  unfoldable pub check_health : Exec History Done
  check_health = sqlbinding.check_health "select 1"

  unfoldable pub check_binding_health : GoMap → Exec History Done
  check_binding_health account =
      sqlbinding.check_binding_health "snowflake" (get account sqlbinding.account_key_url_direct)
        "select 1"
