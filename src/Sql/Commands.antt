-- ===== src/Sql/Commands.antt =====
-- The functions of the SDK's package sqlbinding that the SQL providers hand their commands and
-- health checks to. They are not in this repository.
use bindings.Common.{String, List}
use bindings.Exec.{Exec, Done}
use bindings.Sql.{History}

pub record SqlBinding (Json : Type 0) : Type 0 where
  -- binding.AccountKeyURLDirect
  pub account_key_url_direct : String
  -- RunCommand(driver, url, command, options), the options being RowReturningKeywords
  pub run_command : String → String → String → List String → Exec History Json
  -- CheckHealth(adminConn, query) and CheckBindingHealth(driver, url, query)
  pub check_health : String → Exec History Done
  pub check_binding_health : String → String → String → Exec History Done
