-- ===== src/Databricks.antt =====
-- databricks/databricks_binding.go and databricks/databricks_auth.go.
pub mod Auth
pub mod Quoting
pub mod Workspace
pub mod Accounts
pub mod Artifacts
pub mod Perms
pub mod Service
mod Tests
use bindings.Common.{String, GoMap}
use bindings.Databricks.Auth.{Config}

-- The service after InitializeService; the clients are the arguments of the operations.
pub record Databricks : Type 0 where
  pub service_config : GoMap
  pub cfg : Config
  pub warehouse_id : String
