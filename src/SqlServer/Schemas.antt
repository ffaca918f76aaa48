-- ===== src/SqlServer/Schemas.antt =====
-- DeleteArtifact and dropSchemaCascade of sqlserver/sqlserver_binding.go.
pub mod Cascade
pub mod Order
use bindings.Sql.Rows.{collected}
use bindings.Common.{none, [], some, ◌∷◌, ◌==◌, Option, ◌++◌, List, if◌then◌else◌, String}
use bindings.Exec.{
  ◌>>-◌, err, message, ok, describe, GoError, fail, pure, ◌>>◌, Result, ◌>>=◌, Exec,
}
use bindings.Sql.Perms.{row_present, inspect}
use bindings.Sql.{Cursor, Row, History, Server, exec_context, query_context, query_row}
use bindings.SqlServer.{quote_ident}
use bindings.Sdk.{Sdk, Artifact, user, login, schema}

pub record ForeignKey : Type 0 where
  pub fk_name : String
  pub table_name : String

module _ (sdk : Sdk) where
  unfoldable pub drop_foreign_key_sql : String → ForeignKey → String
  drop_foreign_key_sql schema_name fk =
      "ALTER TABLE "
      ++ quote_ident sdk schema_name
      ++ "."
      ++ quote_ident sdk fk.table_name
      ++ " DROP CONSTRAINT "
      ++ quote_ident sdk fk.fk_name

  unfoldable pub drop_object_sql : String → String → String → String
  drop_object_sql schema_name drop_keyword name =
      "DROP " ++ drop_keyword ++ " " ++ quote_ident sdk schema_name ++ "." ++ quote_ident sdk name

  unfoldable pub drop_schema_sql : String → String
  drop_schema_sql schema_name = "DROP SCHEMA " ++ quote_ident sdk schema_name

module _ (sdk : Sdk) (server : Server) where
  module _ (schema_name : String) where
    unfoldable pub list_foreign_keys : Exec History (List ForeignKey)
    list_foreign_keys =
        inspect
          (collected (λ row. record { fk_name = row 0; table_name = row 1 })
            ("error listing foreign keys in schema " ++ schema_name)
            ("error reading foreign keys in schema " ++ schema_name))
          (query_context server
            "\n\t\tSELECT fk.name, o.name FROM sys.foreign_keys fk\n\t\tJOIN sys.objects o ON fk.parent_object_id = o.object_id\n\t\tWHERE o.schema_id = SCHEMA_ID(@p1)"
            (schema_name ∷ []))

    unfoldable pub drop_foreign_keys : List ForeignKey → Exec History Unit
    drop_foreign_keys [] = pure tt
    drop_foreign_keys (fk ∷ fks) =
        describe ("error dropping foreign key " ++ fk.fk_name ++ " in schema " ++ schema_name)
          (exec_context server (drop_foreign_key_sql sdk schema_name fk))
        >> drop_foreign_keys fks

    unfoldable pub list_objects : String → Exec History (List String)
    list_objects object_type =
        inspect
          (collected (λ row. row 0) ("error listing objects in schema " ++ schema_name)
            ("error reading objects in schema " ++ schema_name))
          (query_context server
            "SELECT name FROM sys.objects WHERE schema_id = SCHEMA_ID(@p1) AND type = @p2"
            (schema_name ∷ object_type ∷ []))

    unfoldable pub drop_objects : String → List String → Exec History Unit
    drop_objects drop_keyword [] = pure tt
    drop_objects drop_keyword (name ∷ names) =
        describe ("error dropping " ++ drop_keyword ++ " " ++ name ++ " in schema " ++ schema_name)
          (exec_context server (drop_object_sql sdk schema_name drop_keyword name))
        >> drop_objects drop_keyword names

    -- One round of the loop over the object classes.
    unfoldable pub drop_class : String → String → Exec History Unit
    unfolding list_objects drop_objects
    drop_class object_type drop_keyword = list_objects object_type >>= drop_objects drop_keyword

    unfoldable pub drop_contents : Exec History Unit
    unfolding list_foreign_keys drop_foreign_keys drop_class
    drop_contents = do
      fks ← list_foreign_keys
      drop_foreign_keys fks
      drop_class "V" "VIEW"
      drop_class "U" "TABLE"
      drop_class "SO" "SEQUENCE"
      describe ("error dropping schema " ++ schema_name)
          (exec_context server (drop_schema_sql sdk schema_name))

    unfoldable pub drop_schema_cascade : Exec History Unit
    unfolding drop_contents
    drop_schema_cascade = do
      exists ←
          inspect (row_present ("error checking schema " ++ schema_name))
            (query_row server "SELECT 1 FROM sys.schemas WHERE name = @p1" (schema_name ∷ []))
      if exists then drop_contents else pure tt

  unfoldable pub drop_login : String → Exec History Unit
  drop_login name = do
    exists ←
        inspect (row_present ("error checking login " ++ name))
          (query_row server "SELECT 1 FROM sys.server_principals WHERE name = @p1" (name ∷ []))
    if exists
        then describe ("error dropping login " ++ name)
            (exec_context server ("DROP LOGIN " ++ quote_ident sdk name))
        else pure tt

  unfoldable pub delete_artifact : Artifact → Exec History Unit
  unfolding drop_schema_cascade drop_login
  delete_artifact a =
      if a.name == "" then fail (message "artifact name is required") else elim a.kind [
        | schema ↦ drop_schema_cascade a.name
        | user ↦
            describe ("error dropping user " ++ a.name)
              (exec_context server ("DROP USER IF EXISTS " ++ quote_ident sdk a.name))
        | login ↦ drop_login a.name
        | kind ↦
            fail (message ("unsupported sqlserver artifact type " ++ sdk.artifact_type_text kind))
      ]
