-- ===== src/ClickHouse/Perms.antt =====
-- applyPerms and tableExists of clickhouse/clickhouse_binding.go.
pub mod Performed
use bindings.Common.{String, ◌++◌, Bool, true, false, not, ◌&&◌, List, [], ◌∷◌, ◌==◌, if◌then◌else◌}
use bindings.Exec.{
  GoError, message, Result, ok, err, is_no_rows, Exec, pure, fail, lift, describe, ◌>>=◌, ◌>>◌,
}
use bindings.Sdk.{Sdk, read, create, full, other, Grant}
use bindings.Sql.{History, Server, exec_context, query_row}
use bindings.Sql.Grants.{apply_each}
use bindings.Sql.Perms.{parse_operation, verb, inspect, row_present}
use bindings.ClickHouse.{
  ClickHouse, full_db_privileges, full_table_privileges, quote_ident, on_cluster,
}

module _ (sdk : Sdk) (b : ClickHouse) where
  -- The statement that the closure `applyStmt` formats.
  unfoldable pub statement : Bool → String → String → String → String
  statement is_grant role privs scope =
      if is_grant
      then "GRANT"
        ++ on_cluster sdk b
        ++ " "
        ++ privs
        ++ " ON "
        ++ scope
        ++ " TO "
        ++ quote_ident sdk role
      else "REVOKE"
        ++ on_cluster sdk b
        ++ " "
        ++ privs
        ++ " ON "
        ++ scope
        ++ " FROM "
        ++ quote_ident sdk role

-- The scopes `db.*` and `db.table`.
abbrev pub db_scope : Sdk → String → String
db_scope sdk database = quote_ident sdk database ++ ".*"

abbrev pub table_scope : Sdk → String → String → String
table_scope sdk database target = quote_ident sdk database ++ "." ++ quote_ident sdk target

module _ (sdk : Sdk) (server : Server) (b : ClickHouse) where
  unfoldable pub table_exists : String → String → Exec History Bool
  table_exists database table =
      inspect (row_present ("error checking if table " ++ database ++ "." ++ table ++ " exists")) (
        query_row server "SELECT 1 FROM system.tables WHERE database = ? AND name = ?"
          (database ∷ table ∷ []))

  module _ (is_grant : Bool) (database role : String) where
    unfoldable pub apply_stmt : String → String → Exec History Unit
    unfolding statement
    apply_stmt privs scope = exec_context server (statement sdk b is_grant role privs scope)

    unfoldable pub table_specific : String → String → Exec History Bool
    unfolding apply_stmt table_exists
    table_specific target privs =
        if not is_grant then apply_stmt privs (table_scope sdk database target) >> pure true else do
          exists ← table_exists database target
          if not exists
              then pure false
              else apply_stmt privs (table_scope sdk database target) >> pure true

    -- One round of the loop; whether the grant is appended to `grantsDone`.
    unfoldable pub apply_grant : Grant → Exec History Bool
    unfolding apply_stmt table_specific
    apply_grant g = elim g.grant_type [
      | read ↦
          if g.grant_target == sdk.grant_target_all
          then describe ("error " ++ verb is_grant ++ " select privileges on database " ++ database)
              (apply_stmt "SELECT" (db_scope sdk database))
            >> pure true
          else describe
              ("error "
                ++ verb is_grant
                ++ " select privileges on table "
                ++ database
                ++ "."
                ++ g.grant_target)
              (table_specific g.grant_target "SELECT")
      | create ↦
          if is_grant && not (g.grant_target == "") && not (g.grant_target == sdk.grant_target_all)
          then fail (message "create grant on specific table is not supported")
          else describe ("error " ++ verb is_grant ++ " create privileges on database " ++ database)
              (apply_stmt "CREATE TABLE, CREATE VIEW" (db_scope sdk database))
            >> pure true
      | full ↦
          if g.grant_target == sdk.grant_target_all
          then describe ("error " ++ verb is_grant ++ " full privileges on database " ++ database)
              (apply_stmt full_db_privileges (db_scope sdk database))
            >> pure true
          else describe
              ("error "
                ++ verb is_grant
                ++ " full privileges on table "
                ++ database
                ++ "."
                ++ g.grant_target)
              (table_specific g.grant_target full_table_privileges)
      | other _ ↦ pure false
    ]

  unfoldable pub apply_perms : String → List Grant → String → String → Exec History (List Grant)
  apply_perms operation grants database role = do
    is_grant ← lift (parse_operation operation)
    apply_each (apply_grant is_grant database role) [] grants
