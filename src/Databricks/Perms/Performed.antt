-- ===== src/Databricks/Perms/Performed.antt =====
-- What a successful applyPerms of the Databricks provider executes and reports.
use bindings.Sql.Lookups.{Answers-none, Answers}
use bindings.Exec.{err, Result, pure, ◌>>◌, describe, ok}
use bindings.Sql.Statements.{Does-ask_row, Does-exec, Does-run}
use bindings.Sql.{query_row, History, Server}
use bindings.Sql.Settled.{apply_perms_rule, Settled}
use bindings.Sql.Perms.{not_specific, parse_operation}
use bindings.Sql.Does.{
  Does-weaken, Does-fail, Does-if, Does-describe, Does-pure, Does-both, fine, Does, Post,
}
use bindings.Sdk.{full, create, other, read, GrantType, Grant, Sdk}
use bindings.Common.{
  ◌++◌, List, not, refl, none, ◌&&◌, some, false, ◌∷◌, ◌||◌, ◌==◌, [], if◌then◌else◌, true, Option,
  ◌≡◌, String, Bool,
}
use bindings.Databricks.Perms.{
  stored_name, resolve_query, full_schema_privileges, statement, schema_scope, table_scope,
  apply_found, resolve_table, apply_stmt, table_specific, apply_grant, apply_perms,
}
use bindings.Sql.Executions.{executions, Execution}
use bindings.Databricks.{Databricks}
use mathlib.Core.List

module _ (sdk : Sdk) (server : Server) (b : Databricks) (schema_name : String) (is_grant : Bool)
    (principal : String) where
  -- The one statement of a grant that is carried out.
  abbrev pub sent : String → String → List Execution
  sent privs scope = fine (statement b schema_name is_grant principal privs scope) ∷ []

  -- The server answered the lookup of a table with its stored name, or with no row.
  abbrev pub LookedUp : String → Option String → Type 0
  LookedUp target found =
      Answers server (resolve_query sdk server b schema_name) (schema_name ∷ target ∷ []) found

  -- A grant on one table: one statement for the name that the catalog answered for the target, or
  -- none because it answered that there is no such table.
  abbrev pub Specific : String → String → Post Bool
  Specific target privs false es = (es ≡ []) × LookedUp target none
  Specific target privs true es =
      (name : String) × LookedUp target (some name)
      × (es ≡ sent privs (table_scope b schema_name name))

  abbrev pub OnSchema : String → Post Bool
  OnSchema privs applied es = (applied ≡ true) × (es ≡ sent privs (schema_scope b schema_name))

  -- What one grant does: whether it is reported, and what is executed.
  abbrev pub Effect : Grant → Post Bool
  Effect g = elim g.grant_type [
    | read ↦
        if g.grant_target == sdk.grant_target_all
        then OnSchema "SELECT"
        else Specific g.grant_target "SELECT"
    | create ↦ λ applied es.
        OnSchema "CREATE TABLE" applied es
        × ((not is_grant || (g.grant_target == "" || g.grant_target == sdk.grant_target_all))
            ≡ true)
    | full ↦
        if g.grant_target == sdk.grant_target_all
        then OnSchema full_schema_privileges
        else Specific g.grant_target "ALL PRIVILEGES"
    | other _ ↦ λ applied es. (applied ≡ false) × (es ≡ [])
  ]

  on_schema-OnSchema :
      (error_text privs : String)
      → Does (OnSchema privs) (
          describe error_text (
            apply_stmt sdk server b schema_name is_grant principal privs
              (schema_scope b schema_name))
          >> pure true)
  unfolding apply_stmt
  on_schema-OnSchema error_text privs = Does-run server _ _ _ _ (Does-pure _ true (refl, refl))

  stored_name-LookedUp :
      (target error_text : String) (found : Option String) (h : History)
      → stored_name error_text
          (query_row server
            (resolve_query sdk server b schema_name)
            (schema_name ∷ target ∷ [])
            h).0
        ≡ ok found
      → LookedUp target found
  stored_name-LookedUp target error_text found h = seen _ found refl
    where
      query : String
      query = resolve_query sdk server b schema_name

      never : {value : String} → none ≡ some value → LookedUp target (some value)
      never e = cc

      seen :
          (r : Result String) (found : Option String)
          → (query_row server query (schema_name ∷ target ∷ []) h).0 ≡ r
          → stored_name error_text r ≡ ok found
          → LookedUp target found
      seen (ok value) (some name) same taken = (h, cc)
      seen (ok value) none same taken = cc
      seen (err e) none same taken = (Answers-none server _ _ h e _ none none _ same refl taken).0
      seen (err e) (some name) same taken =
          never (Answers-none server _ _ h e _ none (some name) _ same refl taken).1

  apply_found-Specific :
      (target privs : String) (found : Option String)
      → LookedUp target found
      → Does
          (Specific target privs)
          (apply_found sdk server b schema_name is_grant principal privs found)
  unfolding apply_stmt
  apply_found-Specific target privs none looked = Does-pure _ false (refl, looked)
  apply_found-Specific target privs (some name) looked =
      Does-exec server _ _ _ (Does-pure _ true (name, looked, refl))

  table_specific-Specific :
      (target privs : String)
      → Does
          (Specific target privs)
          (table_specific sdk server b schema_name is_grant principal target privs)
  unfolding table_specific resolve_table
  table_specific-Specific target privs =
      Does-ask_row server _
        (stored_name ("error checking if table " ++ schema_name ++ "." ++ target ++ " exists"))
        (resolve_query sdk server b schema_name) (schema_name ∷ target ∷ []) _
        (λ found h answer.
          apply_found-Specific target privs found (stored_name-LookedUp target _ found h answer))

  kind-Effect :
      (kind : GrantType) (target : String)
      → let g : Grant = record { grant_type = kind; grant_target = target } in
        Does (Effect g) (apply_grant sdk server b schema_name is_grant principal g)
  unfolding apply_grant
  kind-Effect read target =
      Does-both (target == sdk.grant_target_all) _ _ (on_schema-OnSchema _ _)
        (Does-describe _ _ _ (table_specific-Specific target "SELECT"))
  kind-Effect create target =
      Does-if _ (is_grant && not (target == "") && not (target == sdk.grant_target_all))
        (λ _. Does-fail _ _)
        (λ e.
          Does-weaken (OnSchema "CREATE TABLE") _ _
            (λ applied es done. (done, not_specific is_grant _ _ e)) (on_schema-OnSchema _ _))
  kind-Effect full target =
      Does-both (target == sdk.grant_target_all) _ _ (on_schema-OnSchema _ _)
        (Does-describe _ _ _ (table_specific-Specific target "ALL PRIVILEGES"))
  kind-Effect (other t) target = Does-pure _ false (refl, refl)

  apply_grant-Effect :
      (g : Grant) → Does (Effect g) (apply_grant sdk server b schema_name is_grant principal g)
  apply_grant-Effect g = kind-Effect g.grant_type g.grant_target

-- A successful applyPerms of Databricks ran with `grant` or `revoke`, and settles every grant in
-- order: a schema-wide or create grant is reported and takes exactly its one statement; one on a
-- table takes one statement, for the stored name that the server answered to the lookup of that
-- table, and is reported, or takes none and is not, and then the server answered the lookup with
-- no row; one of an unknown type takes none and is not. Nothing else is executed.
pub apply_perms-Settled_of_databricks :
    (sdk : Sdk) (server : Server) (b : Databricks) (operation schema_name principal : String)
    (grants grants_done : List Grant) (h h' : History)
    → apply_perms sdk server b operation grants schema_name principal h ≡ (ok grants_done, h')
    → (is_grant : Bool) × (parse_operation operation ≡ ok is_grant)
      × (more : List Execution) × (executions h' ≡ List.◌++◌ (executions h) more)
      × Settled (Effect sdk server b schema_name is_grant principal) grants grants_done more
unfolding apply_perms
apply_perms-Settled_of_databricks sdk server b operation schema_name principal grants done h h' =
    apply_perms_rule (λ is_grant. Effect sdk server b schema_name is_grant principal)
      (λ is_grant. apply_grant sdk server b schema_name is_grant principal)
      (λ is_grant. apply_grant-Effect sdk server b schema_name is_grant principal)
      (parse_operation operation) grants h h' done
