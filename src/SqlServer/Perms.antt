-- ===== src/SqlServer/Perms.antt =====
-- applyPerms, trySoftGrant and tableExists of sqlserver/sqlserver_binding.go.
pub mod Performed
use bindings.SqlServer.{full_privileges, quote_ident}
use bindings.Exec.{message, fail, pure, lift, describe, ◌>>=◌, ◌>>◌, Exec}
use bindings.Sql.Grants.{apply_each}
use bindings.Common.{[], not, ◌&&◌, ◌∷◌, ◌==◌, List, if◌then◌else◌, ◌++◌, String, Bool, true, false}
use bindings.Sql.Perms.{parse_operation, verb, row_present, inspect}
use bindings.Sql.{History, Server, exec_context, query_row}
use bindings.Sdk.{Sdk, Grant, read, create, full, other}

module _ (sdk : Sdk) (is_grant : Bool) (schema user : String) where
  abbrev grant_or_revoke : String
  grant_or_revoke = if is_grant then "GRANT" else "REVOKE"

  abbrev to_or_from : String
  to_or_from = if is_grant then "TO" else "FROM"

  -- The statements of applyPerms: privileges on the schema, on one object, and to create.
  unfoldable pub schema_sql : String → String
  schema_sql privs =
      grant_or_revoke
      ++ " "
      ++ privs
      ++ " ON SCHEMA::"
      ++ quote_ident sdk schema
      ++ " "
      ++ to_or_from
      ++ " "
      ++ quote_ident sdk user

  unfoldable pub object_sql : String → String → String
  object_sql privs target =
      grant_or_revoke
      ++ " "
      ++ privs
      ++ " ON OBJECT::"
      ++ quote_ident sdk schema
      ++ "."
      ++ quote_ident sdk target
      ++ " "
      ++ to_or_from
      ++ " "
      ++ quote_ident sdk user

  unfoldable pub create_sql : String
  create_sql =
      grant_or_revoke ++ " CREATE TABLE, CREATE VIEW " ++ to_or_from ++ " " ++ quote_ident sdk user

module _ (sdk : Sdk) (server : Server) where
  unfoldable pub table_exists : String → String → Exec History Bool
  table_exists schema table =
      inspect (row_present ("error checking if table " ++ schema ++ "." ++ table ++ " exists")) (
        query_row server
          "SELECT 1 FROM sys.objects WHERE schema_id = SCHEMA_ID(@p1) AND name = @p2 AND type IN ('U', 'V')"
          (schema ∷ table ∷ []))

  unfoldable pub try_soft_grant : String → String → String → Exec History Bool
  unfolding table_exists
  try_soft_grant schema table stmt = do
    exists ← table_exists schema table
    if exists then exec_context server stmt >> pure true else pure false

  module _ (is_grant : Bool) (schema user : String) where
    abbrev create_and_alter : Exec History Bool
    create_and_alter = do
      describe ("error " ++ verb is_grant ++ " create privileges for user " ++ user)
          (exec_context server (create_sql sdk is_grant schema user))
      describe ("error " ++ verb is_grant ++ " alter privileges on schema " ++ schema)
          (exec_context server (schema_sql sdk is_grant schema user "ALTER"))
      pure true

    abbrev on_schema : String → String → Exec History Unit
    on_schema word privs =
        describe ("error " ++ verb is_grant ++ " " ++ word ++ " privileges on schema " ++ schema)
          (exec_context server (schema_sql sdk is_grant schema user privs))

    abbrev on_object : String → String → String → Exec History Bool
    on_object word privs target =
        describe
          ("error "
            ++ verb is_grant
            ++ " "
            ++ word
            ++ " privileges on table "
            ++ schema
            ++ "."
            ++ target)
          (try_soft_grant schema target (object_sql sdk is_grant schema user privs target))

    -- One round of the loop; whether the grant is appended to `grantsDone`.
    unfoldable pub apply_grant : Grant → Exec History Bool
    unfolding try_soft_grant
    apply_grant g = elim g.grant_type [
      | read ↦
          if g.grant_target == sdk.grant_target_all
          then on_schema "select" "SELECT" >> pure true
          else on_object "select" "SELECT" g.grant_target
      | create ↦
          if is_grant && not (g.grant_target == "") && not (g.grant_target == sdk.grant_target_all)
          then fail (message "create grant on specific table is not supported")
          else create_and_alter
      | full ↦
          if g.grant_target == sdk.grant_target_all
          then on_schema "full" full_privileges >> create_and_alter
          else on_object "full" full_privileges g.grant_target
      | other _ ↦ pure false
    ]

  unfoldable pub apply_perms : String → List Grant → String → String → Exec History (List Grant)
  apply_perms operation grants schema user = do
    is_grant ← lift (parse_operation operation)
    apply_each (apply_grant is_grant schema user) [] grants
