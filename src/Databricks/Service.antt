-- ===== src/Databricks/Service.antt =====
-- InitializeService, CloseService, ApplyGrants, RevokeGrants, RunCommand and the health checks of
-- databricks/databricks_binding.go.
pub mod Connections
use bindings.Sql.Commands.{SqlBinding}
use bindings.Databricks.{Databricks}
use bindings.Databricks.Auth.{warehouse_id, hostname, auth_config, Config}
use bindings.Sql.{ping_context, close_on_error, close_conn, opened, query_row, History, Server}
use bindings.Exec.{
  describe, ◌>>-◌, lift, ◌>>=◌, message, wrap_err, is_no_rows, check, ◌>>◌, err, ok, pure, GoError,
  Done, Result, Exec,
}
use bindings.Sdk.{full, create, read, Grant, BindingMetadata, GrantEngine, Sdk}
use bindings.Common.{
  in_quotes, ◌++◌, config_keys, get, ◌||◌, none, Bool, some, ◌==◌, if◌then◌else◌, GoMap, [], Option,
  ◌∷◌, List, String,
}
use bindings.Databricks.Perms.{apply_perms}
use bindings.Sql.Perms.{inspect}
use bindings.Url.{UrlLib}
use bindings.GoText.{GoText}
use bindings.Databricks.Workspace.{IntLib}

abbrev required_keys : List String
required_keys = "host" ∷ "http_path" ∷ "catalog" ∷ []

abbrev optional_keys : List String
optional_keys =
    "warehouse_id" ∷ "auth_type" ∷ "token" ∷ "client_id" ∷ "client_secret" ∷ "azure_client_id"
    ∷ "azure_client_secret" ∷ "azure_tenant_id" ∷ "azure_use_msi" ∷ "google_service_account"
    ∷ "google_credentials" ∷ "account_credential_type" ∷ "token_lifetime_seconds" ∷ []

-- databricks.NewWorkspaceClient and dbsql.NewConnector, the latter at the host name, the HTTP path,
-- the config and the catalog: whether they fail.
pub record ClientLib : Type 0 where
  pub new_workspace_client : Config → Option GoError
  pub new_connector : String → String → Config → String → Option GoError

unfoldable pub check_credential_type : String → Option GoError
check_credential_type t =
    if t == "" || (t == "auto" || (t == "oauth" || t == "token"))
    then none
    else some (
        message ("invalid account_credential_type " ++ in_quotes t ++ ": use auto, oauth or token"))

-- The value of the integer is not kept.
unfoldable pub check_lifetime : {Int : Type 0} → IntLib Int → String → Result Done
check_lifetime ints lifetime =
    if lifetime == ""
    then ok tt
    else wrap_err ("invalid token_lifetime_seconds " ++ in_quotes lifetime)
        (ints.parse_int lifetime)
      >>- λ _. ok tt

-- The `Scan` of the catalog query.
abbrev catalog_seen : String → Result String → Result Done
catalog_seen catalog (ok _) = ok tt
catalog_seen catalog (err e) =
    if is_no_rows e
    then err (
        message (
          "unity catalog "
          ++ in_quotes catalog
          ++ " was not found (or the admin identity cannot see it)"))
    else err (GoError.wrap ("error checking catalog " ++ catalog) e)

-- sql.OpenDB makes the pool, which is later closed.
abbrev open_db : Exec History Done
open_db h = (ok tt, opened "" none ∷ h)

module _ {Int : Type 0} (sdk : Sdk) (text : GoText) (urls : UrlLib) (ints : IntLib Int)
    (clients : ClientLib) (server : Server) where
  abbrev check_catalog : String → Exec History Done
  check_catalog catalog = inspect (catalog_seen catalog) (
      query_row server "SELECT 1 FROM system.information_schema.catalogs WHERE catalog_name = ?"
        (catalog ∷ []))

  -- The service that a successful InitializeService leaves, the connection being its history.
  unfoldable pub initialize_service : GoMap → Exec History Databricks
  unfolding check_credential_type check_lifetime
  initialize_service c = do
    check (sdk.verify_keys (config_keys c) required_keys optional_keys)
    check (check_credential_type (get c "account_credential_type"))
    lift (check_lifetime ints (get c "token_lifetime_seconds"))
    cfg ← lift (auth_config text c)
    describe "error creating databricks workspace client" (check (clients.new_workspace_client cfg))
    describe "error building databricks connection config" (
        check (
          clients.new_connector (hostname text urls (get c "host")) (get c "http_path") cfg
            (get c "catalog")))
    open_db
    close_on_error server (describe "error verifying databricks connection" (ping_context server))
    close_on_error server (check_catalog (get c "catalog"))
    pure (record { service_config = c; cfg = cfg; warehouse_id = warehouse_id c })

-- `none` is a service that has not been initialized.
unfoldable pub close_service : Server → Option Databricks → Exec History Done
close_service server none = pure tt
close_service server (some b) = close_conn server

module _ (sdk : Sdk) (server : Server) (engine : GrantEngine History) (b : Databricks) where
  unfoldable pub apply_grants :
      GoMap → BindingMetadata → Bool → Exec History engine.GrantApplyResult
  apply_grants account metadata reapply_all =
      engine.apply_grants_incremental_safe metadata (read ∷ create ∷ full ∷ []) reapply_all
        λ op batch.
          apply_perms sdk server b op batch (get account "schema") (get account "client_id")

  unfoldable pub revoke_grants : GoMap → List Grant → List Grant → Exec History Done
  revoke_grants account revokes regrants = engine.revoke_then_regrant revokes regrants λ op grants.
      apply_perms sdk server b op grants (get account "schema") (get account "client_id") >>= λ _.
      pure tt

-- RunCommand, CheckHealth and CheckBindingHealth, at the account of a binding.
module _ {Json : Type 0} (sqlbinding : SqlBinding Json) where
  unfoldable pub run_command : GoMap → String → Exec History Json
  run_command account command =
      sqlbinding.run_command "databricks" (get account sqlbinding.account_key_url_direct) command
        ("SHOW" ∷ "DESC" ∷ "DESCRIBE" ∷ "EXPLAIN" ∷ "VALUES" ∷ "LIST" ∷ [])

  unfoldable pub check_health : Exec History Done
  check_health = sqlbinding.check_health "select 1"

  unfoldable pub check_binding_health : GoMap → Exec History Done
  check_binding_health account =
      sqlbinding.check_binding_health "databricks" (get account sqlbinding.account_key_url_direct)
        "select 1"
