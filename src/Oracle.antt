-- ===== src/Oracle.antt =====
-- oracle/oracle_binding.go
pub mod Accounts
pub mod Perms
pub mod Service
mod Tests
use bindings.Common.{String, GoMap, ℕ}
use bindings.Sdk.{Sdk}

-- The service after InitializeService; the admin connection is the `Server` of the operations.
pub record Oracle : Type 0 where
  pub service_config : GoMap

unfoldable pub quote_ident : Sdk → String → String
quote_ident sdk name = sdk.quote_ident_double name

-- isOracleErr is `has_code`; the codes that are handled specially
abbrev pub table_not_found : ℕ
table_not_found = 942

abbrev pub cannot_revoke : ℕ
cannot_revoke = 1927

abbrev pub sequence_missing : ℕ
sequence_missing = 2289
