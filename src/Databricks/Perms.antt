-- ===== src/Databricks/Perms.antt =====
-- applyPerms and resolveTable of databricks/databricks_binding.go.
pub mod Performed
use bindings.Sdk.{full, create, other, read, Grant, Sdk}
use bindings.Exec.{
  message, fail, GoError, is_no_rows, ◌>>◌, describe, lift, err, ◌>>=◌, pure, Done, ok, Exec,
  Result,
}
use bindings.Common.{
  not, ◌&&◌, true, [], none, ◌∷◌, ◌==◌, false, some, if◌then◌else◌, Option, get, List, ◌++◌, Bool,
  String,
}
use bindings.Sql.Grants.{apply_each}
use bindings.Sql.Perms.{parse_operation, inspect, verb}
use bindings.Sql.{query_row, exec_context, History, Server}
use bindings.Databricks.Quoting.{quote_ident}
use bindings.Databricks.{Databricks}

module _ (b : Databricks) (schema_name : String) where
  abbrev pub quoted_schema : String
  quoted_schema = quote_ident (get b.service_config "catalog") ++ "." ++ quote_ident schema_name

  -- The statement that the closure `applyStmt` formats.
  unfoldable pub statement : Bool → String → String → String → String
  statement is_grant principal privs scope =
      if is_grant
      then "GRANT " ++ privs ++ " ON " ++ scope ++ " TO " ++ quote_ident principal
      else "REVOKE " ++ privs ++ " ON " ++ scope ++ " FROM " ++ quote_ident principal

  abbrev pub schema_scope : String
  schema_scope = "SCHEMA " ++ quoted_schema

  abbrev pub table_scope : String → String
  table_scope name = "TABLE " ++ quoted_schema ++ "." ++ quote_ident name

abbrev pub full_schema_privileges : String
full_schema_privileges = "SELECT, MODIFY, CREATE TABLE"

-- The stored name of the table, or that there is none.
abbrev pub stored_name : String → Result String → Result (Option String)
stored_name error_text (ok name) = ok (some name)
stored_name error_text (err e) = if is_no_rows e then ok none else err (GoError.wrap error_text e)

module _ (sdk : Sdk) (server : Server) (b : Databricks) (schema_name : String) where
  unfoldable pub resolve_query : String
  resolve_query =
      "SELECT table_name FROM "
      ++ quote_ident (get b.service_config "catalog")
      ++ ".information_schema.tables WHERE table_schema = ? AND table_name = lower(?) LIMIT 1"

  unfoldable pub resolve_table : String → Exec History (Option String)
  resolve_table target =
      inspect
        (stored_name ("error checking if table " ++ schema_name ++ "." ++ target ++ " exists"))
        (query_row server resolve_query (schema_name ∷ target ∷ []))

  module _ (is_grant : Bool) (principal : String) where
    unfoldable pub apply_stmt : String → String → Exec History Done
    unfolding statement
    apply_stmt privs scope =
        exec_context server (statement b schema_name is_grant principal privs scope)

    abbrev pub apply_found : String → Option String → Exec History Bool
    apply_found privs none = pure false
    apply_found privs (some name) = apply_stmt privs (table_scope b schema_name name) >> pure true

    unfoldable pub table_specific : String → String → Exec History Bool
    unfolding resolve_table apply_stmt
    table_specific target privs = resolve_table target >>= apply_found privs

    abbrev on_schema : String → String
    on_schema word =
        "error " ++ verb is_grant ++ " " ++ word ++ " privileges on schema " ++ schema_name

    abbrev on_table : String → String → String
    on_table word target =
        "error "
        ++ verb is_grant
        ++ " "
        ++ word
        ++ " privileges on table "
        ++ schema_name
        ++ "."
        ++ target

    -- One round of the loop; whether the grant is appended to `grantsDone`.
    unfoldable pub apply_grant : Grant → Exec History Bool
    unfolding table_specific
    apply_grant g = elim g.grant_type [
      | read ↦
          if g.grant_target == sdk.grant_target_all
          then describe (on_schema "select") (apply_stmt "SELECT" (schema_scope b schema_name))
            >> pure true
          else describe (on_table "select" g.grant_target) (table_specific g.grant_target "SELECT")
      | create ↦
          if is_grant && not (g.grant_target == "") && not (g.grant_target == sdk.grant_target_all)
          then fail (message "create grant on specific table is not supported")
          else describe (on_schema "create")
              (apply_stmt "CREATE TABLE" (schema_scope b schema_name))
            >> pure true
      | full ↦
          if g.grant_target == sdk.grant_target_all
          then describe (on_schema "full")
              (apply_stmt full_schema_privileges (schema_scope b schema_name))
            >> pure true
          else describe (on_table "full" g.grant_target)
              (table_specific g.grant_target "ALL PRIVILEGES")
      | other _ ↦ pure false
    ]

unfoldable pub apply_perms :
    Sdk → Server → Databricks → String → List Grant → String → String → Exec History (List Grant)
apply_perms sdk server b operation grants schema_name principal = do
  is_grant ← lift (parse_operation operation)
  apply_each (apply_grant sdk server b schema_name is_grant principal) [] grants
