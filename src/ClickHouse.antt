-- ===== src/ClickHouse.antt =====
-- clickhouse/clickhouse_binding.go
pub mod Password
pub mod Accounts
pub mod Perms
pub mod Service
mod Tests
use bindings.Common.{String, ◌++◌, Option, none, some, ◌==◌, if◌then◌else◌, GoMap, get, double_all}
use bindings.Sdk.{Sdk}

-- The service after InitializeService: the config, and beside it the admin connection, which is
-- the `Server` argument of the operations.
pub record ClickHouse : Type 0 where
  pub service_config : GoMap

abbrev pub full_db_privileges : String
full_db_privileges =
    "SELECT, INSERT, ALTER, CREATE TABLE, CREATE VIEW, DROP TABLE, DROP VIEW, TRUNCATE, OPTIMIZE"

abbrev pub full_table_privileges : String
full_table_privileges = "SELECT, INSERT, ALTER, TRUNCATE, OPTIMIZE"

-- quoteClickhouseIdent: backslashes are doubled before quoting
unfoldable pub quote_ident : Sdk → String → String
quote_ident sdk name = sdk.quote_ident_double (double_all 92 name)

unfoldable pub on_cluster : Sdk → ClickHouse → String
on_cluster sdk b =
    let cluster = get b.service_config "cluster" in
    if cluster == "" then "" else " ON CLUSTER " ++ quote_ident sdk cluster
