-- ===== src/Oracle/Perms.antt =====
-- applyPerms, applySchemaWide, applyObjectPerm, listSchemaObjects and objectExists of
-- oracle/oracle_binding.go.
pub mod Executed
pub mod Objects
pub mod Performed
use bindings.Sql.Rows.{collected}
use bindings.Exec.{
  Done, message, fail, lift, ◌>>-◌, ◌>>◌, describe, ◌>>=◌, pure, GoError, err, ok, has_code, Exec,
  Result,
}
use bindings.Sql.Grants.{apply_each}
use bindings.Oracle.{cannot_revoke, sequence_missing, quote_ident, table_not_found}
use bindings.Common.{
  ◌&&◌, [], none, ◌∷◌, not, some, ◌||◌, ◌==◌, ◌++◌, Option, if◌then◌else◌, ℕ, Bool, List, String,
}
use bindings.Sql.Perms.{parse_operation, verb, row_present, inspect}
use bindings.Sql.{query_row, exec_context, query_context, History, Row, Cursor, Server}
use bindings.Sdk.{Grant, Sdk, read, full}
use mathlib.Core.Bool.{true, false}

pub record SchemaObjects : Type 0 where
  pub tables : List String
  pub views : List String
  pub sequences : List String

module _ (sdk : Sdk) where
  -- The statement that applies privileges on one object.
  unfoldable pub statement : Bool → String → String → String → String → String
  statement is_grant schema user privs object =
      if is_grant
      then "GRANT "
        ++ privs
        ++ " ON "
        ++ quote_ident sdk schema
        ++ "."
        ++ quote_ident sdk object
        ++ " TO "
        ++ quote_ident sdk user
      else "REVOKE "
        ++ privs
        ++ " ON "
        ++ quote_ident sdk schema
        ++ "."
        ++ quote_ident sdk object
        ++ " FROM "
        ++ quote_ident sdk user

-- `to_upper` is strings.ToUpper.
module _ (sdk : Sdk) (server : Server) (to_upper : String → String) where
  unfoldable pub object_exists : String → String → Exec History Bool
  object_exists schema object_name =
      inspect
        (row_present ("error checking if object " ++ schema ++ "." ++ object_name ++ " exists"))
        (query_row server
          "SELECT 1 FROM (\n\t\tSELECT table_name AS name FROM all_tables WHERE owner = :1\n\t\tUNION ALL\n\t\tSELECT view_name AS name FROM all_views WHERE owner = :2\n\t) WHERE name = :3"
          (schema ∷ schema ∷ object_name ∷ []))

  -- The closure `collect` of listSchemaObjects.
  unfoldable pub collect : String → String → Exec History (List String)
  collect schema query =
      inspect
        (collected (λ row. row 0) ("error listing objects in schema " ++ schema)
          ("error reading objects in schema " ++ schema))
        (query_context server query (schema ∷ []))

  unfoldable pub list_schema_objects : String → Exec History SchemaObjects
  unfolding collect
  list_schema_objects schema = do
    tables ← collect schema "SELECT table_name FROM all_tables WHERE owner = :1"
    views ← collect schema "SELECT view_name FROM all_views WHERE owner = :1"
    sequences ← collect schema "SELECT sequence_name FROM all_sequences WHERE sequence_owner = :1"
    pure (record { tables = tables; views = views; sequences = sequences })

  module _ (is_grant : Bool) (schema user : String) where
    -- The errors that the closure `apply` of applySchemaWide passes over.
    abbrev pub passes_over : ℕ → GoError → Bool
    passes_over missing_code e =
        has_code e missing_code || (not is_grant && has_code e cannot_revoke)

    abbrev pub tolerating : ℕ → String → Result Done → Result Done
    tolerating missing_code object (ok u) = ok u
    tolerating missing_code object (err e) =
        if passes_over missing_code e
        then ok tt
        else err (GoError.wrap ("object " ++ schema ++ "." ++ object) e)

    -- The closure `apply` of applySchemaWide.
    unfoldable pub apply : String → ℕ → String → Exec History Unit
    unfolding statement has_code
    apply privs missing_code object =
        if privs == ""
        then pure tt
        else inspect (tolerating missing_code object)
            (exec_context server (statement sdk is_grant schema user privs object))

    -- One of its loops.
    unfoldable pub apply_all : String → ℕ → List String → Exec History Unit
    unfolding apply
    apply_all privs missing_code [] = pure tt
    apply_all privs missing_code (object ∷ objects) =
        apply privs missing_code object >> apply_all privs missing_code objects

    unfoldable pub apply_schema_wide : String → String → String → Exec History Unit
    unfolding list_schema_objects apply_all
    apply_schema_wide table_privs view_privs sequence_privs = do
      objects ← list_schema_objects schema
      apply_all table_privs table_not_found objects.tables
      apply_all view_privs table_not_found objects.views
      apply_all sequence_privs sequence_missing objects.sequences

    abbrev pub applied_or_missing : Result Done → Result Bool
    applied_or_missing (ok _) = ok true
    applied_or_missing (err e) = if passes_over table_not_found e then ok false else err e

    -- The object that a target names: itself, or else its upper case.
    unfoldable pub resolve : String → Exec History (Option String)
    unfolding object_exists
    resolve target = do
      exists ← object_exists schema target
      if exists then pure (some target) else if to_upper target == target then pure none else do
        exists_upper ← object_exists schema (to_upper target)
        pure (if exists_upper then some (to_upper target) else none)

    abbrev pub apply_found : String → Option String → Exec History Bool
    apply_found privs none = pure false
    apply_found privs (some object) =
        inspect applied_or_missing
          (exec_context server (statement sdk is_grant schema user privs object))

    unfoldable pub apply_object_perm : String → String → Exec History Bool
    unfolding resolve statement has_code
    apply_object_perm target privs = resolve target >>= apply_found privs

    -- One round of the loop; whether the grant is appended to `grantsDone`.
    unfoldable pub apply_grant : Grant → Exec History Bool
    unfolding apply_schema_wide apply_object_perm
    apply_grant g = elim g.grant_type [
      | read ↦
          if g.grant_target == sdk.grant_target_all
          then describe ("error " ++ verb is_grant ++ " select privileges on schema " ++ schema)
              (apply_schema_wide "SELECT" "SELECT" "")
            >> pure true
          else describe
              ("error "
                ++ verb is_grant
                ++ " select privileges on table "
                ++ schema
                ++ "."
                ++ g.grant_target)
              (apply_object_perm g.grant_target "SELECT")
      | full ↦
          if g.grant_target == sdk.grant_target_all
          then describe ("error " ++ verb is_grant ++ " full privileges on schema " ++ schema)
              (apply_schema_wide "SELECT, INSERT, UPDATE, DELETE" "SELECT" "SELECT")
            >> pure true
          else describe
              ("error "
                ++ verb is_grant
                ++ " full privileges on table "
                ++ schema
                ++ "."
                ++ g.grant_target)
              (apply_object_perm g.grant_target "SELECT, INSERT, UPDATE, DELETE")
      | kind ↦ fail (
          message ("unsupported grant type " ++ sdk.grant_type_text kind ++ " for oracle bindings"))
    ]

  unfoldable pub apply_perms : String → List Grant → String → String → Exec History (List Grant)
  apply_perms operation grants schema user = do
    is_grant ← lift (parse_operation operation)
    apply_each (apply_grant is_grant schema user) [] grants
