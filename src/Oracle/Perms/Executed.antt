-- ===== src/Oracle/Perms/Executed.antt =====
-- What a successful applyPerms and a successful applyObjectPerm of the Oracle provider executed.
use bindings.Sql.Perms.{verb, row_present, parse_operation}
use bindings.Oracle.Perms.{
  apply_found, tolerating, statement, applied_or_missing, list_schema_objects, resolve, collect,
  apply_all, apply_object_perm, apply, apply_schema_wide, object_exists, apply_grant, apply_perms,
}
use bindings.Common.{
  refl, none, ◌&&◌, [], All, ◌∷◌, not, arith, ◌||◌, ◌==◌, ◌⊎◌, ◌≡◌, ℕ, some, List, Option, String,
  Bool, inl, inr, ◌++◌,
}
use bindings.Sql.Executions.{
  apply_each-AddsAll, AddsAll-fail, AddsAll-inspect, AddsAll-describe, executions, of_answer,
  AddsAll-pure, AddsAll-if, AddsAll-query_row, AddsAll-query, AddsAll, AddsAll-bind, Execution,
}
use bindings.Oracle.{cannot_revoke, sequence_missing, table_not_found}
use bindings.Sdk.{GrantType, Grant, Sdk, read, full, create, other}
use bindings.Exec.{Result-cases, pure, ◌>>◌, has_code, describe, ok, is_ok, GoError, Exec}
use mathlib.Core.List
use bindings.Sql.Rows.{collected}
use bindings.Sql.{History, Server}
use mathlib.Core.Bool.{true, false}

-- An answer that does not fail the whole operation: success, an object that is gone by now, or,
-- while revoking, a privilege that was not held.
abbrev pub is_tolerated : Bool → Option GoError → Bool
is_tolerated is_grant none = true
is_tolerated is_grant (some e) =
    has_code e table_not_found
    || (has_code e sequence_missing || (not is_grant && has_code e cannot_revoke))

module _ (sdk : Sdk) (schema user : String) where
  -- A statement about one object of the schema and the account's user.
  abbrev pub IsPermission : Bool → Execution → Type 0
  IsPermission is_grant (stmt, answer) =
      (privs : String) × (object : String) × (stmt
        ≡ statement sdk is_grant schema user privs object)
      × (is_tolerated is_grant answer ≡ true)

  module _ (server : Server) (to_upper : String → String) (is_grant : Bool) where
    abbrev Fine : {A : Type 0} → Exec History A → Type 0
    Fine m = AddsAll (IsPermission is_grant) m

    apply-Fine :
        (privs object : String) (code : ℕ)
        → (code ≡ table_not_found) ⊎ (code ≡ sequence_missing)
        → Fine (apply sdk server to_upper is_grant schema user privs code object)
    unfolding apply
    apply-Fine privs object code known = AddsAll-if _ (privs == "") (AddsAll-pure _ tt) (
        AddsAll-inspect _ server (tolerating sdk server to_upper is_grant schema user code object) _
          (λ answer fine. (privs, object, refl, passed answer fine)))
      where
        passed :
            (answer : Option GoError)
            → is_ok
                (tolerating sdk server to_upper is_grant schema user code object (of_answer answer))
              ≡ true
            → is_tolerated is_grant answer ≡ true
        passed none fine = refl
        passed (some e) fine = elim known [
          | inl table ↦ ground (arith, table)
          | inr sequence ↦ ground (arith, sequence)
        ]

    apply_all-Fine :
        (privs : String) (code : ℕ) (objects : List String)
        → (code ≡ table_not_found) ⊎ (code ≡ sequence_missing)
        → Fine (apply_all sdk server to_upper is_grant schema user privs code objects)
    unfolding apply_all
    apply_all-Fine privs code [] known = AddsAll-pure _ tt
    apply_all-Fine privs code (object ∷ objects) known =
        AddsAll-bind _ (apply-Fine privs object code known)
          (λ _. apply_all-Fine privs code objects known)

    collect-Fine : (query : String) → Fine (collect sdk server to_upper schema query)
    unfolding collect
    collect-Fine query =
        AddsAll-query _ server
          (collected (λ row. row 0) ("error listing objects in schema " ++ schema)
            ("error reading objects in schema " ++ schema))
          query _

    apply_schema_wide-Fine :
        (tables views sequences : String)
        → Fine (apply_schema_wide sdk server to_upper is_grant schema user tables views sequences)
    unfolding apply_schema_wide list_schema_objects
    apply_schema_wide-Fine tables views sequences =
        AddsAll-bind _
          (AddsAll-bind _ (collect-Fine _) (λ ts.
            AddsAll-bind _ (collect-Fine _)
              (λ vs. AddsAll-bind _ (collect-Fine _) (λ ss. AddsAll-pure _ _))))
          (λ objects. AddsAll-bind _ (apply_all-Fine tables _ objects.tables (inl refl)) (λ _.
            AddsAll-bind _ (apply_all-Fine views _ objects.views (inl refl))
              (λ _. apply_all-Fine sequences _ objects.sequences (inr refl))))

    object_exists-Fine : (object : String) → Fine (object_exists sdk server to_upper schema object)
    unfolding object_exists
    object_exists-Fine object =
        AddsAll-query_row _ server
          (row_present ("error checking if object " ++ schema ++ "." ++ object ++ " exists")) _ _

    resolve-Fine :
        (target : String) → Fine (resolve sdk server to_upper is_grant schema user target)
    unfolding resolve
    resolve-Fine target = AddsAll-bind _ (object_exists-Fine target) (λ exists.
        AddsAll-if _ exists (AddsAll-pure _ _) (
          AddsAll-if _ (to_upper target == target) (AddsAll-pure _ _)
            (AddsAll-bind _ (object_exists-Fine (to_upper target)) (λ e. AddsAll-pure _ _))))

    apply_object_perm-Fine :
        (target privs : String)
        → Fine (apply_object_perm sdk server to_upper is_grant schema user target privs)
    unfolding apply_object_perm
    apply_object_perm-Fine target privs = AddsAll-bind _ (resolve-Fine target) found
      where
        passed :
            (answer : Option GoError)
            → is_ok (applied_or_missing sdk server to_upper is_grant schema user (of_answer answer))
              ≡ true
            → is_tolerated is_grant answer ≡ true
        passed none fine = refl
        passed (some e) fine = ground arith

        found :
            (object : Option String)
            → Fine (apply_found sdk server to_upper is_grant schema user privs object)
        found none = AddsAll-pure _ false
        found (some object) =
            AddsAll-inspect _ server (applied_or_missing sdk server to_upper is_grant schema user) _
              (λ answer fine. (privs, object, refl, passed answer fine))

    wide-Fine :
        (text tables views sequences : String)
        → Fine (
            describe text
              (apply_schema_wide sdk server to_upper is_grant schema user tables views sequences)
            >> pure true)
    wide-Fine text tables views sequences =
        AddsAll-bind _ (AddsAll-describe _ text (apply_schema_wide-Fine tables views sequences))
          (λ _. AddsAll-pure _ true)

    pub apply_grant-Fine :
        (kind : GrantType) (target : String)
        → Fine (
            apply_grant sdk server to_upper is_grant schema user
              (record { grant_type = kind; grant_target = target }))
    unfolding apply_grant
    apply_grant-Fine read target =
        AddsAll-if _ (target == sdk.grant_target_all)
          (wide-Fine ("error " ++ verb is_grant ++ " select privileges on schema " ++ schema)
            "SELECT" "SELECT" "")
          (AddsAll-describe _
            ("error " ++ verb is_grant ++ " select privileges on table " ++ schema ++ "." ++ target)
            (apply_object_perm-Fine target "SELECT"))
    apply_grant-Fine full target =
        AddsAll-if _ (target == sdk.grant_target_all)
          (wide-Fine ("error " ++ verb is_grant ++ " full privileges on schema " ++ schema)
            "SELECT, INSERT, UPDATE, DELETE" "SELECT" "SELECT")
          (AddsAll-describe _
            ("error " ++ verb is_grant ++ " full privileges on table " ++ schema ++ "." ++ target)
            (apply_object_perm-Fine target "SELECT, INSERT, UPDATE, DELETE"))
    apply_grant-Fine create target = AddsAll-fail _ _
    apply_grant-Fine (other _) target = AddsAll-fail _ _

-- An applyPerms that returns no error had a valid operation, and every statement that it executed
-- grants (or, for a revoke, revokes) privileges on one object of the schema to the account's user
-- and was accepted, unless the object was gone or, for a revoke, the privilege was not held.
pub apply_perms-Executes :
    (sdk : Sdk) (server : Server) (to_upper : String → String) (operation schema user : String)
    (grants grants_done : List Grant) (h h' : History)
    → apply_perms sdk server to_upper operation grants schema user h ≡ (ok grants_done, h')
    → (is_grant : Bool) × (parse_operation operation ≡ ok is_grant)
      × (more : List Execution) × (executions h' ≡ List.◌++◌ (executions h) more)
      × All (IsPermission sdk schema user is_grant) more
unfolding apply_perms
apply_perms-Executes sdk server to_upper operation schema user grants grants_done h h' e =
    elim (Result-cases (parse_operation operation)) [
      | inr (_, failed) ↦ cc
      | inl (is_grant, parsed) ↦
          let fine =
            (apply_each-AddsAll (IsPermission sdk schema user is_grant)
                (apply_grant sdk server to_upper is_grant schema user) [] grants
                (λ g.
                  apply_grant-Fine sdk schema user server to_upper is_grant g.grant_type
                    g.grant_target)).at
              h in
          let (more, added, all) = rw (rw parsed at e) at fine in
          (is_grant, parsed, more, added, all)
    ]
