-- ===== src/SqlServer.antt =====
-- sqlserver/sqlserver_binding.go
pub mod Accounts
pub mod Schemas
pub mod Perms
pub mod Service
mod Tests
use bindings.Common.{◌++◌, GoMap, String}
use bindings.Sdk.{Sdk}

-- The service after InitializeService; the admin connection is the `Server` of the operations.
pub record SqlServer : Type 0 where
  pub service_config : GoMap
  pub database : String

abbrev pub full_privileges : String
full_privileges = "SELECT, INSERT, UPDATE, DELETE, REFERENCES"

unfoldable pub quote_ident : Sdk → String → String
quote_ident sdk name = sdk.quote_ident_bracket name

unfoldable pub quote_text : Sdk → String → String
quote_text sdk s = "N" ++ sdk.quote_string_single s
