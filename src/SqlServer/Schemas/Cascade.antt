-- ===== src/SqlServer/Schemas/Cascade.antt =====
-- What dropSchemaCascade of the SQL Server provider executes.
use bindings.Exec.{Exec}
use bindings.SqlServer.Schemas.{drop_schema_sql, drop_object_sql, drop_foreign_key_sql, ForeignKey}
use bindings.Common.{◌⊎◌, none, ◌||◌, ◌==◌, ◌≡◌, List, Bool, String, true}
use bindings.Sql.Executions.{AddsAll, Execution}
use bindings.Sdk.{Sdk}
use mathlib.Core.List
use bindings.Sql.{History, Server}

abbrev is_class : String → Bool
is_class drop_keyword =
    drop_keyword == "VIEW" || (drop_keyword == "TABLE" || drop_keyword == "SEQUENCE")

module _ (sdk : Sdk) (schema_name : String) where
  -- A drop that concerns the schema: of a foreign key of one of its tables, of one of its views,
  -- tables and sequences, or of the schema itself.
  abbrev pub IsDrop : String → Type 0
  IsDrop stmt =
      ((fk : ForeignKey) × (stmt ≡ drop_foreign_key_sql sdk schema_name fk))
      ⊎ (((drop_keyword : String) × (name : String) × (is_class drop_keyword ≡ true)
            × (stmt ≡ drop_object_sql sdk schema_name drop_keyword name))
          ⊎ (stmt ≡ drop_schema_sql sdk schema_name))

  abbrev pub IsAcceptedDrop : Execution → Type 0
  IsAcceptedDrop (stmt, answer) = IsDrop stmt × (answer ≡ none)

  module _ (server : Server) where
    abbrev Fine : {A : Type 0} → Exec History A → Type 0
    Fine m = AddsAll IsAcceptedDrop m
