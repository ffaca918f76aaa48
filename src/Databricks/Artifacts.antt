-- ===== src/Databricks/Artifacts.antt =====
-- DeleteArtifact of databricks/databricks_binding.go.
pub mod Deleting
use bindings.Sdk.{schema, user, Artifact, Sdk}
use bindings.Sql.{exec_context}
use bindings.Sql.Plan.{on_connection}
use bindings.Databricks.Workspace.{on_sql, delete_principal, World, Principal, Workspace, IntLib}
use bindings.Exec.{◌>>=◌, message, fail, describe, pure, err, ok, Exec, Done, Result}
use bindings.Common.{none, ◌==◌, some, if◌then◌else◌, get, Option, ◌++◌, String}
use bindings.Databricks.Quoting.{quote_ident}
use bindings.Databricks.Accounts.{find_service_principal}
use bindings.Databricks.{Databricks}
use bindings.GoText.{GoText}

module _ {Int : Type 0} (sdk : Sdk) (text : GoText) (ints : IntLib Int) (ws : Workspace Int)
    (b : Databricks) where
  -- apierr.IsMissing: a principal that is gone is as good as deleted.
  abbrev pub unless_missing : Result Done → Result Done
  unless_missing (ok _) = ok tt
  unless_missing (err e) = if ws.is_missing e then ok tt else err e

  abbrev pub delete_found : String → Option Principal → Exec (World Int) Done
  delete_found name none = pure tt
  delete_found name (some sp) =
      describe ("error deleting service principal " ++ name)
        λ w. let (r, w') = delete_principal ws sp.id w in (unless_missing r, w')

  unfoldable pub drop_schema_sql : String → String
  drop_schema_sql name =
      "DROP SCHEMA IF EXISTS "
      ++ quote_ident (get b.service_config "catalog")
      ++ "."
      ++ quote_ident name
      ++ " CASCADE"

  unfoldable pub delete_artifact : Artifact → Exec (World Int) Done
  unfolding find_service_principal
  delete_artifact a =
      if a.name == "" then fail (message "artifact name is required") else elim a.kind [
        | user ↦
            describe ("error looking up service principal " ++ a.name)
              (find_service_principal sdk text ints ws b a.name)
            >>= delete_found a.name
        | schema ↦ on_sql ws λ server. on_connection (
            describe ("error dropping schema " ++ a.name)
              (exec_context server (drop_schema_sql a.name)))
        | kind ↦
            fail (message ("unsupported databricks artifact type " ++ sdk.artifact_type_text kind))
      ]
