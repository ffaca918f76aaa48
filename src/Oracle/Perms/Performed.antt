-- ===== src/Oracle/Perms/Performed.antt =====
-- What a successful applyPerms of the Oracle provider executes and reports, grant by grant.
use bindings.Sql.Lookups.{row_present-HasRow, HasRow}
use bindings.Sql.{History, Server}
use bindings.Sql.Statements.{Does-ask_row, Does-inspect}
use bindings.Common.{
  eq_iff, arith, ◌++◌, ◌∷◌, refl, inl, inr, false, [], none, true, ◌⊎◌, ◌==◌, some, ◌≡◌,
  if◌then◌else◌, Option, Bool, List, String,
}
use bindings.Oracle.Perms.Objects.{passed, apply_schema_wide-SchemaWide, IsPassed, SchemaWide}
use bindings.Oracle.Perms.{
  tolerating, apply_schema_wide, statement, applied_or_missing, apply_found, object_exists,
  apply_object_perm, apply_grant, resolve, apply_perms,
}
use bindings.Oracle.{table_not_found}
use bindings.Exec.{pure, err, ◌>>◌, describe, answered, ◌>>=◌, ok, Exec, GoError}
use bindings.Sql.Settled.{apply_perms_rule, Settled}
use bindings.Sdk.{create, other, full, GrantType, read, Grant, Sdk}
use bindings.Sql.Executions.{executions, Execution}
use bindings.Sql.Does.{
  Does-fail, fine, Does-describe, Does-pure, Does-both, Does-if, Does-bind, Does, Post,
}
use bindings.Sql.Perms.{row_present, parse_operation}
use mathlib.Core.List
use mathlib.Core.List.{append-nil}

module _ (sdk : Sdk) (server : Server) (to_upper : String → String) (schema user : String)
    (is_grant : Bool) where
  -- The server answered, at some time, whether the schema has a table or view of a name.
  abbrev pub Exists : String → Bool → Type 0
  Exists object b =
      HasRow server
        "SELECT 1 FROM (\n\t\tSELECT table_name AS name FROM all_tables WHERE owner = :1\n\t\tUNION ALL\n\t\tSELECT view_name AS name FROM all_views WHERE owner = :2\n\t) WHERE name = :3"
        (schema ∷ schema ∷ object ∷ []) b

  -- The object of a target: it exists, and has the exact name, or else the name in upper case.
  abbrev pub IsNamed : String → String → Type 0
  IsNamed target object =
      Exists object true × ((object ≡ target) ⊎ ((object ≡ to_upper target) × Exists target false))

  -- There is no object of either name.
  abbrev pub IsMissing : String → Type 0
  IsMissing target =
      Exists target false × ((to_upper target ≡ target) ⊎ Exists (to_upper target) false)

  -- One object: a statement that was accepted and a report, or an object that was not found or is
  -- gone, or for a revoke a privilege that was not held, and no report.
  abbrev pub Specific : String → String → Post Bool
  Specific target privs true es =
      (object : String) × IsNamed target object
      × (es ≡ fine (statement sdk is_grant schema user privs object) ∷ [])
  Specific target privs false es =
      ((es ≡ []) × IsMissing target)
      ⊎ ((object : String) × IsNamed target object
          × (e : GoError) × IsPassed sdk server to_upper schema user is_grant table_not_found
              (some e)
          × (es ≡ (statement sdk is_grant schema user privs object, some e) ∷ []))

  -- What one grant does: whether it is reported, and what is executed. No other grant succeeds.
  abbrev pub Effect : Grant → Post Bool
  Effect g = elim g.grant_type [
    | read ↦
        if g.grant_target == sdk.grant_target_all
        then (λ applied es.
            (applied ≡ true)
            × SchemaWide sdk server to_upper schema user is_grant "SELECT" "SELECT" "" es)
        else Specific g.grant_target "SELECT"
    | full ↦
        if g.grant_target == sdk.grant_target_all
        then (λ applied es.
            (applied ≡ true)
            × SchemaWide sdk server to_upper schema user is_grant "SELECT, INSERT, UPDATE, DELETE"
                "SELECT" "SELECT" es)
        else Specific g.grant_target "SELECT, INSERT, UPDATE, DELETE"
    | _ ↦ λ applied es. ⊥
  ]

  abbrev Resolved : String → Option String → Type 0
  Resolved target none = IsMissing target
  Resolved target (some object) = IsNamed target object

  abbrev Resolves : String → Post (Option String)
  Resolves target found es = (es ≡ []) × Resolved target found

  object_exists-bind :
      {A : Type 0} (Q : Post A) (object : String) (k : Bool → Exec History A)
      → ((exists : Bool) → Exists object exists → Does Q (k exists))
      → Does Q (object_exists sdk server to_upper schema object >>= k)
  unfolding object_exists
  object_exists-bind Q object k later =
      Does-ask_row server Q
        (row_present ("error checking if object " ++ schema ++ "." ++ object ++ " exists")) _
        (schema ∷ schema ∷ object ∷ []) k
        (λ exists h answer. later exists (row_present-HasRow server _ _ _ exists h answer))

  upper-Resolved :
      (target : String) (exists : Bool)
      → Exists target false
      → Exists (to_upper target) exists
      → Resolved target (if exists then some (to_upper target) else none)
  upper-Resolved target true missing found = (found, inr (refl, missing))
  upper-Resolved target false missing missing_upper = (missing, inr missing_upper)

  exact-Resolves :
      (target : String) (exists : Bool)
      → Exists target exists
      → Does (Resolves target) (
          if exists
          then pure (some target)
          else if to_upper target == target
          then pure none
          else (object_exists sdk server to_upper schema (to_upper target) >>= λ exists_upper.
              pure (if exists_upper then some (to_upper target) else none)))
  exact-Resolves target true found = Does-pure (Resolves target) _ (refl, (found, inl refl))
  exact-Resolves target false missing =
      Does-if (Resolves target) (to_upper target == target)
        (λ same.
          Does-pure (Resolves target) none
            (refl, (missing, inl ((eq_iff (to_upper target) target).0 same))))
        (λ _. object_exists-bind (Resolves target) (to_upper target) _ (λ exists_upper answer.
          Does-pure (Resolves target) _ (refl, upper-Resolved target exists_upper missing answer)))

  resolve-Resolves :
      (target : String)
      → Does (Resolves target) (resolve sdk server to_upper is_grant schema user target)
  unfolding resolve
  resolve-Resolves target =
      object_exists-bind (Resolves target) target _
        (λ exists answer. exact-Resolves target exists answer)

  judged-Specific :
      (target privs object : String) (answer : Option GoError) (applied : Bool)
      → IsNamed target object
      → applied_or_missing sdk server to_upper is_grant schema user (answered answer) ≡ ok applied
      → Specific target privs applied
          ((statement sdk is_grant schema user privs object, answer) ∷ [])
  judged-Specific target privs object none true named e = (object, named, refl)
  judged-Specific target privs object none false named e = cc
  judged-Specific target privs object (some x) true named e = ground arith
  judged-Specific target privs object (some x) false named e = inr (
    object,
    named,
    x,
    passed sdk server to_upper schema user is_grant table_not_found object (some x) tt (gone x e),
    refl,
  )
    where
      gone :
          (x : GoError)
          → applied_or_missing sdk server to_upper is_grant schema user (err x) ≡ ok false
          → tolerating sdk server to_upper is_grant schema user table_not_found object (err x)
            ≡ ok tt
      gone x e = ground arith

  apply_found-Specific :
      (target privs : String) (found : Option String)
      → Resolved target found
      → Does
          (Specific target privs)
          (apply_found sdk server to_upper is_grant schema user privs found)
  apply_found-Specific target privs none named = Does-pure _ false (inl (refl, named))
  apply_found-Specific target privs (some object) named =
      Does-inspect server (Specific target privs)
        (applied_or_missing sdk server to_upper is_grant schema user) _
        (λ answer applied. judged-Specific target privs object answer applied named)

  apply_object_perm-Specific :
      (target privs : String)
      → Does
          (Specific target privs)
          (apply_object_perm sdk server to_upper is_grant schema user target privs)
  unfolding apply_object_perm
  apply_object_perm-Specific target privs =
      Does-bind (Resolves target) _ _ _ (resolve-Resolves target)
        (λ found es (quiet, named). rw quiet (apply_found-Specific target privs found named))

  wide-reported :
      (error_text t v s : String)
      → Does
          (λ applied es.
            (applied ≡ true) × SchemaWide sdk server to_upper schema user is_grant t v s es)
          (describe error_text (apply_schema_wide sdk server to_upper is_grant schema user t v s)
            >> pure true)
  wide-reported error_text t v s =
      Does-bind (λ _. SchemaWide sdk server to_upper schema user is_grant t v s) _ _ _
        (Does-describe _ error_text _
          (apply_schema_wide-SchemaWide sdk server to_upper schema user is_grant t v s))
        (λ _ es wide. Does-pure _ true (refl, rw (append-nil es) wide))

  kind-Effect :
      (kind : GrantType) (target : String)
      → let g : Grant = record { grant_type = kind; grant_target = target } in
        Does (Effect g) (apply_grant sdk server to_upper is_grant schema user g)
  unfolding apply_grant
  kind-Effect read target =
      Does-both (target == sdk.grant_target_all) _ _ (wide-reported _ "SELECT" "SELECT" "")
        (Does-describe _ _ _ (apply_object_perm-Specific target "SELECT"))
  kind-Effect full target =
      Does-both (target == sdk.grant_target_all) _ _
        (wide-reported _ "SELECT, INSERT, UPDATE, DELETE" "SELECT" "SELECT")
        (Does-describe _ _ _ (apply_object_perm-Specific target "SELECT, INSERT, UPDATE, DELETE"))
  kind-Effect create target = Does-fail _ _
  kind-Effect (other _) target = Does-fail _ _

-- A successful applyPerms of Oracle ran with `grant` or `revoke`, and settles every grant in
-- order. A grant on the whole schema sends one statement for every table, view and sequence that
-- the server listed, in that order, and is reported; a statement may be refused only because the
-- object is gone or, for a revoke, the privilege was not held. A grant on one object sends one
-- statement, for the object of the target's exact name or else of its upper case that the server
-- answered to exist, and is reported if it was accepted; if it was refused for these reasons the
-- grant is not reported. Nor is it if nothing was sent, and then the server answered that no
-- object of either name exists. Nothing else is executed, and a grant of any other type never
-- succeeds.
pub apply_perms-Settled_of_oracle :
    (sdk : Sdk) (server : Server) (to_upper : String → String) (operation schema user : String)
    (grants grants_done : List Grant) (h h' : History)
    → apply_perms sdk server to_upper operation grants schema user h ≡ (ok grants_done, h')
    → (is_grant : Bool) × (parse_operation operation ≡ ok is_grant)
      × (more : List Execution) × (executions h' ≡ List.◌++◌ (executions h) more)
      × Settled (Effect sdk server to_upper schema user is_grant) grants grants_done more
unfolding apply_perms
apply_perms-Settled_of_oracle sdk server to_upper operation schema user grants grants_done h h' =
    apply_perms_rule (Effect sdk server to_upper schema user)
      (λ is_grant. apply_grant sdk server to_upper is_grant schema user)
      (λ is_grant g.
        kind-Effect sdk server to_upper schema user is_grant g.grant_type g.grant_target)
      (parse_operation operation) grants h h' grants_done
