-- ===== src/Snowflake/Perms/Classes.antt =====
-- The statements of a schema-wide grant of the Snowflake provider.
use bindings.Common.{◌∙◌, refl, true, [], ◌==◌, ◌∷◌, ◌≡◌, if◌then◌else◌, List, Bool, String}
use bindings.Sql.Does.{Does-describe, Does-weaken, Does-bind, Does-pure, Does-if, Does, Post, fine}
use bindings.Exec.{pure, ◌>>◌, describe, Exec, Result}
use bindings.Sql.Statements.{Does-exec, Does-last}
use bindings.Sql.{History, Cursor, Server}
use bindings.Snowflake.Perms.{
  apply_stmt, apply_class, schema_wide, statement, class_scope, schema_scope,
}
use bindings.Sql.Executions.{Execution}
use bindings.Snowflake.{Snowflake}
use bindings.GoText.{GoText}
use bindings.Sdk.{Sdk}
use mathlib.Core.List.{append-nil, ◌++◌}

module _ (sdk : Sdk) (text : GoText) (b : Snowflake) (schema : String) (is_grant : Bool)
    (role : String) where
  -- A statement that the server accepted.
  abbrev pub sent : String → String → Execution
  sent privs scope = fine (statement sdk text b schema is_grant role privs scope)

  abbrev pub usage_sent : Execution
  usage_sent = sent "USAGE" (schema_scope sdk text b schema)

  abbrev pub all_and_future : String → String → List Execution
  all_and_future privs class =
      sent privs (class_scope sdk text b schema "ALL" class)
      ∷ sent privs (class_scope sdk text b schema "FUTURE" class)
      ∷ []

  abbrev pub Sends : {A : Type 0} → List Execution → Post A
  Sends list _ es = es ≡ list

  abbrev pub class_sent : String → String → List Execution
  class_sent privs class = if privs == "" then [] else all_and_future privs class

  module _ (server : Server) (columns : Cursor → Result (List String)) where
    pub apply_stmt-Sends :
        (privs scope : String)
        → Does
            (Sends (sent privs scope ∷ []))
            (apply_stmt sdk text server columns b schema is_grant role privs scope)
    unfolding apply_stmt
    apply_stmt-Sends privs scope = Does-last server _ _ refl

    apply_class-Sends :
        (privs class : String)
        → Does
            (Sends (class_sent privs class))
            (apply_class sdk text server columns b schema is_grant role privs class)
    unfolding apply_class apply_stmt
    apply_class-Sends privs class =
        Does-if (Sends (class_sent privs class)) (privs == "") (λ e. Does-pure _ tt (rw e refl))
          (λ e. Does-exec server _ _ _ (Does-last server _ _ (rw e refl)))

    pub schema_wide-Sends :
        (tables views sequences : String)
        → Does
            (Sends (
              usage_sent
              ∷ (class_sent tables "TABLES"
                  ++ (class_sent views "VIEWS" ++ class_sent sequences "SEQUENCES"))))
            (schema_wide sdk text server columns b schema is_grant role tables views sequences)
    unfolding schema_wide apply_stmt
    schema_wide-Sends tables views sequences = Does-exec server _ _ _ (
        Does-bind (Sends (class_sent tables "TABLES")) _ _ _ (apply_class-Sends tables "TABLES")
          (λ _ es e.
            Does-bind (Sends (class_sent views "VIEWS")) _ _ _ (apply_class-Sends views "VIEWS")
              (λ _ es' e'.
                Does-weaken (Sends (class_sent sequences "SEQUENCES")) _ _
                  (λ _ es'' e''. rw (e, e', e'') refl) (apply_class-Sends sequences "SEQUENCES"))))

    pub then_reported :
        (error_text : String) (list : List Execution) (m : Exec History Unit)
        → Does (Sends list) m
        → Does (λ applied es. (applied ≡ true) × (es ≡ list)) (describe error_text m >> pure true)
    then_reported error_text list m d =
        Does-bind (Sends list) _ _ _ (Does-describe _ error_text m d)
          (λ _ es e. Does-pure _ true (refl, append-nil es ∙ e))
