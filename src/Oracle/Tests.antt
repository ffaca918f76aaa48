-- ===== src/Oracle/Tests.antt =====
-- The theorems about the Oracle provider at concrete inputs, and tests of its functions.
use bindings.Oracle.Perms.Performed.{apply_perms-Settled_of_oracle, Effect}
use bindings.Sql.Settled.{Settled}
use bindings.Common.{refl, All, ◌⊎◌, ◌∷◌, none, ◌≡◌, List, String, [], Bool, ℕ, ◌≢◌}
use bindings.Exec.{has_code, is_ok, ok, Result}
use bindings.Oracle.{quote_ident, Oracle}
use bindings.Sql.Grants.{apply_each}
use bindings.Oracle.Perms.{
  statement, object_exists, resolve, apply_object_perm, apply, apply_all, collect,
  list_schema_objects, apply_schema_wide, apply_grant, apply_perms,
}
use bindings.Oracle.Perms.Executed.{apply_perms-Executes, IsPermission}
use bindings.Sql.Executions.{executions, Execution}
use bindings.Oracle.Accounts.Dropped.{delete_artifact-Drops, Drops}
use bindings.Oracle.Accounts.Reported.{generate_account-Ends, Generates}
use bindings.Sql.Perms.{parse_operation}
use bindings.Sdk.{Grant, read, full, user}
use bindings.Oracle.Accounts.{generate_account, delete_artifact}
use mathlib.Core.List
use text.Mathlib.TextLemmas.{cons≢nil}
use bindings.Samples.{sample_sdk, accepting, refusing}
use bindings.Sql.{History, query_row, query_context, exec_context}
use bindings.Sql.Plan.{Session}
use mathlib.Core.Bool.{false}

abbrev service : Oracle
service = record { service_config = ("url", "oracle://db") ∷ [] }

abbrev upper : String → String
upper s = s

abbrev grants : List Grant
grants =
    record { grant_type = read; grant_target = "*" }
    ∷ record { grant_type = full; grant_target = "T" }
    ∷ []

abbrev after_grants : History
after_grants = (apply_perms sample_sdk accepting upper "grant" grants "S" "U" []).1

apply_perms-grants :
    apply_perms sample_sdk accepting upper "grant" grants "S" "U" [] ≡ (ok grants, after_grants)
unfolding apply_perms apply_grant apply_schema_wide list_schema_objects collect apply_all apply
    apply_object_perm resolve object_exists statement apply_each parse_operation query_row
    query_context exec_context quote_ident has_code
apply_perms-grants = refl

apply_perms-Executes_example :
    (is_grant : Bool) × (parse_operation "grant" ≡ ok is_grant)
    × (more : List Execution) × (executions after_grants ≡ List.◌++◌ (executions []) more)
    × All (IsPermission sample_sdk "S" "U" is_grant) more
apply_perms-Executes_example =
    apply_perms-Executes sample_sdk accepting upper "grant" "S" "U" grants grants [] after_grants
      apply_perms-grants

apply_perms-Settled_of_oracle_example :
    (is_grant : Bool) × (parse_operation "grant" ≡ ok is_grant)
    × (more : List Execution) × (executions after_grants ≡ List.◌++◌ (executions []) more)
    × Settled (Effect sample_sdk accepting upper "S" "U" is_grant) grants grants more
apply_perms-Settled_of_oracle_example =
    apply_perms-Settled_of_oracle sample_sdk accepting upper "grant" "S" "U" grants grants []
      after_grants apply_perms-grants

abbrev fresh : Session
fresh = record { history = []; artifacts = [] }

abbrev hex : ℕ → Result String
hex n = ok "ab"

generate_account-Ends_example :
    Generates sample_sdk refusing hex "bnd_1" none false fresh
      (generate_account sample_sdk refusing service hex "bnd_1" none false fresh)
generate_account-Ends_example =
    generate_account-Ends sample_sdk refusing service hex "bnd_1" none false fresh

abbrev user_name : String
user_name = "U"

user_name-ne-empty : user_name ≢ ""
user_name-ne-empty = cons≢nil

delete_artifact-Drops_example :
    let out = delete_artifact sample_sdk refusing (record { kind = user; name = user_name }) [] in
    ((user ≡ user) × Drops sample_sdk refusing user_name [] out)
    ⊎ ((is_ok out.0 ≡ false) × (out.1 ≡ []))
delete_artifact-Drops_example =
    delete_artifact-Drops sample_sdk refusing user user_name [] user_name-ne-empty
