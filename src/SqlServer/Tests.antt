-- ===== src/SqlServer/Tests.antt =====
-- The theorems about the SQL Server provider at concrete inputs, and tests of its functions.
use bindings.SqlServer.Accounts.Urls.{takes_credential, account_urls-strips}
use bindings.SqlServer.Schemas.Order.{drop_schema_cascade-InOrder, Cascade}
use bindings.SqlServer.Schemas.{
  drop_schema_sql, drop_object_sql, drop_foreign_key_sql, drop_objects, list_objects, drop_class,
  drop_foreign_keys, list_foreign_keys, drop_contents, drop_schema_cascade,
}
use bindings.Common.{if◌then◌else◌, refl, ◌⊎◌, ◌∷◌, ◌≡◌, List, ℕ, Bool, [], String, false, none}
use bindings.Sql.Executions.{executions, Execution}
use mathlib.Core.List
use bindings.Url.{values_of, Values, Url}
use bindings.Exec.{Result, is_ok, ok}
use bindings.SqlServer.{SqlServer}
use bindings.Sql.Perms.{parse_operation}
use bindings.Samples.{sample_sdk, sample_urls, accepting, refusing}
use bindings.Sdk.{read, full, GrantType, Grant}
use bindings.Sql.{History, exec_context, query_row, query_context}
use bindings.Sql.Plan.{Session}
use bindings.Sql.Grants.{actions, IsSettled, apply_each}
use bindings.SqlServer.Perms.{
  apply_perms, apply_grant, schema_sql, object_sql, create_sql, try_soft_grant, table_exists,
}
use bindings.SqlServer.Perms.Performed.{apply_perms-IsSettled_of_server, Possible, effect}
use bindings.SqlServer.Accounts.{account_names, generate_account, account_urls, Names}
use bindings.SqlServer.Accounts.Provision.{account_plan, generate_account-IsProvisioned_of_server}
use bindings.Sql.Plan.Runs.{IsProvisioned}

abbrev service : SqlServer
service = record { service_config = ("url", "sqlserver://db") ∷ []; database = "d" }

abbrev lower : String → String
lower s = s

abbrev hex : ℕ → Result String
hex n = ok "ab"

abbrev grants : List Grant
grants =
    record { grant_type = full; grant_target = "*" }
    ∷ record { grant_type = read; grant_target = "t" }
    ∷ record { grant_type = GrantType.other "odd"; grant_target = "*" }
    ∷ []

abbrev granted : List Grant
granted =
    record { grant_type = full; grant_target = "*" }
    ∷ record { grant_type = read; grant_target = "t" }
    ∷ []

abbrev after_grants : History
after_grants = (apply_perms sample_sdk accepting "grant" grants "s" "u" []).1

apply_perms-grants :
    apply_perms sample_sdk accepting "grant" grants "s" "u" [] ≡ (ok granted, after_grants)
unfolding apply_perms apply_grant apply_each parse_operation try_soft_grant table_exists query_row
    query_context exec_context schema_sql object_sql create_sql
apply_perms-grants = refl

apply_perms-IsSettled_of_server_example :
    (is_grant : Bool) × (parse_operation "grant" ≡ ok is_grant)
    × IsSettled
        (Possible sample_sdk)
        (effect sample_sdk is_grant "s" "u")
        (actions [])
        grants
        granted
        after_grants
apply_perms-IsSettled_of_server_example =
    apply_perms-IsSettled_of_server sample_sdk accepting "grant" "s" "u" grants granted []
      after_grants apply_perms-grants

abbrev fresh : Session
fresh = record { history = []; artifacts = [] }

generate_account-IsProvisioned_of_server_example :
    let out =
      generate_account sample_sdk refusing service sample_urls lower hex "b" none false fresh in
    ((out.1 ≡ fresh) × (is_ok out.0 ≡ false))
    ⊎ ((password : String) × (n : Names) × (account_names "b" false none ≡ ok n)
        × IsProvisioned (account_plan sample_sdk refusing service n password false) fresh out)
generate_account-IsProvisioned_of_server_example =
    generate_account-IsProvisioned_of_server sample_sdk refusing service sample_urls lower hex "b"
      none false fresh

account_urls-both :
    account_urls sample_sdk sample_urls lower "sqlserver://db" "u" "p" "h" ≡ ok ("", "")
unfolding account_urls
account_urls-both = refl

account_urls-strips_example :
    (admin : Url) × (query : Values) × (sample_urls.parse "sqlserver://db" ≡ ok admin)
    × (sample_sdk.account_urls (sample_urls.to_string (record admin { query = query })) "u" "p" "h"
        ≡ ok ("", ""))
    × ((key : String)
        → values_of query key
          ≡ (if takes_credential lower key then [] else values_of admin.query key))
account_urls-strips_example =
    account_urls-strips sample_sdk sample_urls lower "sqlserver://db" "u" "p" "h" ("", "")
      account_urls-both

abbrev after_cascade : History
after_cascade = (drop_schema_cascade sample_sdk accepting "s" []).1

drop_schema_cascade-history :
    drop_schema_cascade sample_sdk accepting "s" [] ≡ (ok tt, after_cascade)
unfolding drop_schema_cascade drop_contents list_foreign_keys drop_foreign_keys drop_class
    list_objects drop_objects query_row query_context exec_context drop_foreign_key_sql
    drop_object_sql drop_schema_sql
drop_schema_cascade-history = refl

drop_schema_cascade-InOrder_example :
    (more : List Execution) × (executions after_cascade ≡ List.◌++◌ (executions []) more)
    × Cascade sample_sdk accepting "s" more
drop_schema_cascade-InOrder_example =
    drop_schema_cascade-InOrder sample_sdk accepting "s" [] after_cascade
      drop_schema_cascade-history
