-- ===== src/ClickHouse/Service.antt =====
-- InitializeService, CloseService, ApplyGrants, RevokeGrants, RunCommand and the health checks of
-- clickhouse/clickhouse_binding.go.
pub mod Connections
use bindings.Exec.{Done, describe, message, fail, wrap_err, lift, check, ◌>>◌, ◌>>=◌, pure, Exec}
use bindings.Sql.Commands.{SqlBinding}
use bindings.Sql.{ping_context, close_on_error, sql_open, close_conn, History, Server}
use bindings.Common.{
  in_quotes, ◌++◌, if◌then◌else◌, config_keys, [], none, get, some, ◌∷◌, List, GoMap, ◌||◌, Option,
  ◌==◌, Bool, String,
}
use bindings.Sdk.{full, create, read, Grant, BindingMetadata, GrantEngine, Sdk}
use bindings.ClickHouse.Perms.{apply_perms}
use bindings.ClickHouse.{ClickHouse}
use bindings.Url.{UrlLib}

abbrev is_known_scheme : String → Bool
is_known_scheme scheme = scheme == "clickhouse" || (scheme == "http" || scheme == "https")

module _ (sdk : Sdk) (server : Server) where
  -- The service that a successful InitializeService leaves, the connection being its history.
  unfoldable pub initialize_service : UrlLib → GoMap → Exec History ClickHouse
  initialize_service urls service_config = do
    check (
        sdk.verify_keys (config_keys service_config) ("url" ∷ [])
          ("binding_hostname" ∷ "cluster" ∷ []))
    u ← lift (wrap_err "error parsing clickhouse url" (urls.parse (get service_config "url")))
    if is_known_scheme u.scheme
        then pure tt
        else fail (
            message (
              "unsupported clickhouse url scheme "
              ++ in_quotes u.scheme
              ++ " (expected clickhouse://host:9000, https://host:8443?secure=true or http://host:8123)"))
    describe "error opening admin connection" (sql_open server (get service_config "url"))
    close_on_error server (describe "error verifying clickhouse connection" (ping_context server))
    pure
        (record { service_config = sdk.localhost_config service_config (get service_config "url") })

  -- `none` is a service that has not been initialized.
  unfoldable pub close_service : Option ClickHouse → Exec History Unit
  close_service none = pure tt
  close_service (some b) = close_conn server

  module _ (engine : GrantEngine History) (b : ClickHouse) where
    unfoldable pub apply_grants :
        GoMap → BindingMetadata → Bool → Exec History engine.GrantApplyResult
    apply_grants account metadata reapply_all =
        engine.apply_grants_incremental_safe metadata (read ∷ create ∷ full ∷ []) reapply_all
          λ op batch.
            apply_perms sdk server b op batch (get account "database") (get account "role")

    unfoldable pub revoke_grants : GoMap → List Grant → List Grant → Exec History Unit
    revoke_grants account revokes regrants =
        engine.revoke_then_regrant revokes regrants λ op grants.
          apply_perms sdk server b op grants (get account "database") (get account "role") >>= λ _.
          pure tt

-- RunCommand, CheckHealth and CheckBindingHealth, at the account of a binding.
module _ {Json : Type 0} (sqlbinding : SqlBinding Json) where
  unfoldable pub run_command : GoMap → String → Exec History Json
  run_command account command =
      sqlbinding.run_command "clickhouse" (get account sqlbinding.account_key_url_direct) command
        ("SHOW" ∷ "DESC" ∷ "DESCRIBE" ∷ "EXISTS" ∷ "EXPLAIN" ∷ [])

  unfoldable pub check_health : Exec History Done
  check_health = sqlbinding.check_health "select 1"

  unfoldable pub check_binding_health : GoMap → Exec History Done
  check_binding_health account =
      sqlbinding.check_binding_health "clickhouse" (get account sqlbinding.account_key_url_direct)
        "select 1"
