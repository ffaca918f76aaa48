-- ===== src/Snowflake/Perms/Performed.antt =====
-- What a successful applyPerms of the Snowflake provider executes and reports.
use bindings.Common.{
  ◌&&◌, ◌||◌, not, refl, ◌∷◌, false, true, ◌==◌, none, [], some, ◌≡◌, Option, if◌then◌else◌, List,
  Bool, String,
}
use bindings.Sql.Statements.{Does-exec}
use bindings.Snowflake.Perms.Classes.{
  Sends, apply_stmt-Sends, sent, all_and_future, schema_wide-Sends, then_reported, usage_sent,
}
use bindings.Sdk.{full, create, other, GrantType, read, Grant, Sdk}
use bindings.Sql.Perms.{not_specific, parse_operation}
use bindings.Sql.Does.{
  Does-weaken, Does-fail, Does-if, Does-describe, Does-pure, Does-both, Does-bind, Does, Post,
}
use bindings.Snowflake.{full_table_privileges, Snowflake}
use bindings.Snowflake.Perms.{
  schema_scope, object_scope, apply_found, table_specific, apply_grant, apply_stmt, Found,
  apply_perms,
}
use bindings.Sql.Settled.{apply_perms_rule, Settled}
use bindings.Sql.Executions.{executions, Execution}
use bindings.Exec.{ok, Result}
use bindings.Sql.{History, Cursor, Server}
use bindings.GoText.{GoText}
use mathlib.Core.List.{◌++◌}
use bindings.Snowflake.Perms.Resolved.{Resolved, resolve-Resolved}

module _ (sdk : Sdk) (text : GoText) (server : Server) (columns : Cursor → Result (List String))
    (b : Snowflake) (schema : String) (is_grant : Bool) (role : String) where
  -- A grant on one object: its statement follows the one that gives the use of the schema; only a
  -- missing object has none.
  abbrev pub Specific : String → String → Post Bool
  Specific target privs false es = (es ≡ []) × Resolved sdk text server columns b schema target none
  Specific target privs true es =
      (name : String) × (is_view : Bool) × Resolved sdk text server columns b schema target
        (some (record { name = name; is_view = is_view }))
      × (es
          ≡ usage_sent sdk text b schema is_grant role
            ∷ sent sdk text b schema is_grant role (if is_view then "SELECT" else privs)
                (object_scope sdk text b schema is_view name)
            ∷ [])

  -- What one grant does: whether it is reported, and what is executed.
  abbrev pub Effect : Grant → Post Bool
  Effect g = elim g.grant_type [
    | read ↦
        if g.grant_target == sdk.grant_target_all
        then (λ applied es.
            (applied ≡ true)
            × (es
                ≡ usage_sent sdk text b schema is_grant role
                  ∷ (all_and_future sdk text b schema is_grant role "SELECT" "TABLES"
                      ++ all_and_future sdk text b schema is_grant role "SELECT" "VIEWS")))
        else Specific g.grant_target "SELECT"
    | create ↦ λ applied es.
        (applied ≡ true)
        × ((not is_grant || (g.grant_target == "" || g.grant_target == sdk.grant_target_all))
            ≡ true)
        × (es
            ≡ sent sdk text b schema is_grant role
                "USAGE, CREATE TABLE, CREATE VIEW, CREATE SEQUENCE" (schema_scope sdk text b schema)
              ∷ [])
    | full ↦
        if g.grant_target == sdk.grant_target_all
        then (λ applied es.
            (applied ≡ true)
            × (es
                ≡ usage_sent sdk text b schema is_grant role
                  ∷ (all_and_future sdk text b schema is_grant role full_table_privileges "TABLES"
                      ++ (all_and_future sdk text b schema is_grant role "SELECT" "VIEWS"
                          ++ (all_and_future sdk text b schema is_grant role "USAGE" "SEQUENCES"
                              ++ (sent sdk text b schema is_grant role
                                    "CREATE TABLE, CREATE VIEW, CREATE SEQUENCE"
                                    (schema_scope sdk text b schema)
                                  ∷ []))))))
        else Specific g.grant_target full_table_privileges
    | other _ ↦ λ applied es. (applied ≡ false) × (es ≡ [])
  ]

  apply_found-Specific :
      (target privs : String) (found : Option Found)
      → Resolved sdk text server columns b schema target found
      → Does
          (Specific target privs)
          (apply_found sdk text server columns b schema is_grant role privs found)
  unfolding apply_stmt
  apply_found-Specific target privs none resolved = Does-pure _ false (refl, resolved)
  apply_found-Specific target privs (some found) resolved =
      Does-exec server _ _ _
        (Does-exec server _ _ _ (Does-pure _ true (found.name, found.is_view, resolved, refl)))

  table_specific-Specific :
      (target privs : String)
      → Does
          (Specific target privs)
          (table_specific sdk text server columns b schema is_grant role target privs)
  unfolding table_specific
  table_specific-Specific target privs =
      Does-bind (λ found es. (es ≡ []) × Resolved sdk text server columns b schema target found) _ _
        _ (resolve-Resolved sdk text server columns b schema target)
        (λ found es (quiet, resolved). rw quiet (apply_found-Specific target privs found resolved))

  kind-Effect :
      (kind : GrantType) (target : String)
      → let g : Grant = record { grant_type = kind; grant_target = target } in
        Does (Effect g) (apply_grant sdk text server columns b schema is_grant role g)
  unfolding apply_grant
  kind-Effect read target =
      Does-both (target == sdk.grant_target_all) _ _
        (then_reported sdk text b schema is_grant role server columns _ _ _
          (schema_wide-Sends sdk text b schema is_grant role server columns "SELECT" "SELECT" ""))
        (Does-describe _ _ _ (table_specific-Specific target "SELECT"))
  kind-Effect create target =
      Does-if _ (is_grant && not (target == "") && not (target == sdk.grant_target_all))
        (λ _. Does-fail _ _)
        (λ e.
          Does-weaken (λ applied es. (applied ≡ true) × (es ≡ _)) _ _
            (λ applied es (reported, same). (reported, not_specific is_grant _ _ e, same))
            (then_reported sdk text b schema is_grant role server columns _ _ _
              (apply_stmt-Sends sdk text b schema is_grant role server columns _ _)))
  kind-Effect full target =
      Does-both (target == sdk.grant_target_all) _ _
        (Does-bind (Sends sdk text b schema is_grant role _) _ _ _
          (Does-describe _ _ _ (
            schema_wide-Sends sdk text b schema is_grant role server columns full_table_privileges
              "SELECT" "USAGE"))
          (λ _ es e.
            Does-weaken (λ applied es'. (applied ≡ true) × (es' ≡ _)) _ _
              (λ applied es' (reported, same). (reported, rw (e, same) refl))
              (then_reported sdk text b schema is_grant role server columns _ _ _
                (apply_stmt-Sends sdk text b schema is_grant role server columns _ _))))
        (Does-describe _ _ _ (table_specific-Specific target full_table_privileges))
  kind-Effect (other t) target = Does-pure _ false (refl, refl)

  apply_grant-Effect :
      (g : Grant) → Does (Effect g) (apply_grant sdk text server columns b schema is_grant role g)
  apply_grant-Effect g = kind-Effect g.grant_type g.grant_target

-- A successful applyPerms of Snowflake ran with `grant` or `revoke`, and settles every grant in
-- order. A schema-wide or create grant takes exactly its statements and is reported. A grant on one
-- object takes the usage of the schema and one statement, for the object of the exact name of the
-- target or else of its upper case that the server showed among the tables, or else among the
-- views, and is reported; or it executes nothing and is not reported, and then the server showed
-- neither name among the tables or the views. A grant of an unknown type executes nothing and is
-- not reported. Nothing else is executed.
pub apply_perms-Settled_of_snowflake :
    (sdk : Sdk) (text : GoText) (server : Server) (columns : Cursor → Result (List String))
    (b : Snowflake) (operation schema role : String) (grants grants_done : List Grant)
    (h h' : History)
    → apply_perms sdk text server columns b operation grants schema role h ≡ (ok grants_done, h')
    → (is_grant : Bool) × (parse_operation operation ≡ ok is_grant)
      × (more : List Execution) × (executions h' ≡ executions h ++ more)
      × Settled (Effect sdk text server columns b schema is_grant role) grants grants_done more
unfolding apply_perms
apply_perms-Settled_of_snowflake sdk text server columns b operation schema role grants done h h' =
    apply_perms_rule (λ is_grant. Effect sdk text server columns b schema is_grant role)
      (λ is_grant. apply_grant sdk text server columns b schema is_grant role)
      (λ is_grant. apply_grant-Effect sdk text server columns b schema is_grant role)
      (parse_operation operation) grants h h' done
