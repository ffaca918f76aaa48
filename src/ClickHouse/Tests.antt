-- ===== src/ClickHouse/Tests.antt =====
-- The theorems about the ClickHouse provider at concrete inputs, and tests of its functions.
use bindings.Sdk.{artifact, database, role, GrantType, full, read, Grant}
use bindings.Samples.{sample_url, sample_sdk-NamesNotEmpty, refusing, sample_sdk, sample_urls}
use bindings.ClickHouse.Accounts.Urls.{account_urls-carry, Carries}
use bindings.Url.{del, Url}
use bindings.Common.{
  some, double_all, get, ◌⊎◌, false, length, none, ◌≡◌, All, String, ℕ, Bool, [], ◌∷◌, refl, List,
}
use bindings.ClickHouse.Accounts.{
  account_urls, account_url, grant_database_sql, create_database_sql, create_role_sql, Names,
  create_objects, account_names, generate_account,
}
use bindings.ClickHouse.Password.Policy.{generate_password_policy, is_in, DrawsBelow}
use bindings.ClickHouse.Accounts.Provision.{generate_account-IsProvisioned, account_plan}
use bindings.ClickHouse.Password.{
  special, digits, upper, lower, draw, shuffle, to_text, pick, pick_classes, generate_password,
  Random,
}
use bindings.Exec.{is_no_rows, is_ok, ok}
use bindings.Sql.Plan.Runs.{IsProvisioned}
use bindings.ClickHouse.Perms.{statement, apply_grant, apply_perms}
use bindings.ClickHouse.Perms.Performed.{apply_perms-IsSettled, effect, Possible}
use bindings.ClickHouse.{on_cluster, quote_ident, ClickHouse}
use bindings.Sql.Grants.{actions, IsSettled, apply_each}
use bindings.ClickHouse.Password.Policy.Counts.{count}
use bindings.ClickHouse.Accounts.Rollback.{generate_account-Deletes, Deletes}
use bindings.Sql.{exec_context, query_row, History}
use bindings.ClickHouse.Service.Connections.{initialize_service-KeepsCount}
use bindings.Sql.Perms.{parse_operation}
use bindings.ClickHouse.Service.{initialize_service}
use bindings.Sql.Connections.{KeepsCount}
use bindings.Sql.Plan.{Session}
use Prim.Native.Char.{Char}

abbrev service : ClickHouse
service = record { service_config = ("url", "http://db") ∷ ("cluster", "c") ∷ [] }

-- Draws that are always zero.
abbrev zeros : Random
zeros k n = ok 0

zeros-DrawsBelow : DrawsBelow zeros
zeros-DrawsBelow k n h = (0, refl, h)

generate_password_policy_example :
    (password : List Char) × (k' : ℕ) × (generate_password zeros 0 ≡ (ok (to_text password), k'))
    × (length password ≡ 24)
    × (count (is_in lower) password ≡ 6)
    × (count (is_in upper) password ≡ 6)
    × (count (is_in digits) password ≡ 6)
    × (count (is_in special) password ≡ 6)
generate_password_policy_example = generate_password_policy zeros zeros-DrawsBelow 0

abbrev grants : List Grant
grants =
    record { grant_type = read; grant_target = "*" }
    ∷ record { grant_type = full; grant_target = "t" }
    ∷ record { grant_type = GrantType.other "odd"; grant_target = "*" }
    ∷ []

abbrev granted : List Grant
granted = record { grant_type = read; grant_target = "*" } ∷ []

abbrev after_grants : History
after_grants = (apply_perms sample_sdk refusing service "grant" grants "d" "r" []).1

-- The table is missing, so the second grant is passed over.
apply_perms-grants :
    apply_perms sample_sdk refusing service "grant" grants "d" "r" [] ≡ (ok granted, after_grants)
unfolding apply_perms apply_grant apply_each parse_operation query_row exec_context quote_ident
    on_cluster statement is_no_rows get double_all
apply_perms-grants = refl

apply_perms-IsSettled_example :
    (is_grant : Bool) × (parse_operation "grant" ≡ ok is_grant)
    × IsSettled
        (Possible sample_sdk is_grant)
        (effect sample_sdk service is_grant "d" "r")
        (actions [])
        grants
        granted
        after_grants
apply_perms-IsSettled_example =
    apply_perms-IsSettled sample_sdk refusing service "grant" "d" "r" grants granted [] after_grants
      apply_perms-grants

abbrev fresh : Session
fresh = record { history = []; artifacts = [] }

abbrev sha : String → String
sha text = "AB"

generate_account-IsProvisioned_example :
    let out =
      generate_account sample_sdk refusing service sample_urls sha zeros 0 "bnd_1" none false
        fresh in
    ((out.1 ≡ fresh) × (is_ok out.0 ≡ false))
    ⊎ ((password : String) × (n : Names) × (account_names sample_sdk "bnd_1" false none ≡ ok n)
        × IsProvisioned (account_plan sample_sdk refusing service n (sha password) false) fresh out)
generate_account-IsProvisioned_example =
    generate_account-IsProvisioned sample_sdk refusing service sample_urls sha zeros 0 "bnd_1" none
      false fresh

generate_account-Deletes_example :
    All
      (Deletes sample_sdk refusing service)
      (generate_account sample_sdk refusing service sample_urls sha zeros 0 "bnd_1" none false
        fresh).1.artifacts
generate_account-Deletes_example =
    generate_account-Deletes sample_sdk refusing service sample_urls sha zeros 0 "bnd_1" none false
      fresh sample_sdk-NamesNotEmpty refl

-- The database was created, its grant refused.
generate_account-stopped :
    (generate_account sample_sdk refusing service sample_urls sha zeros 0 "bnd_1" none false
      fresh).1.artifacts
    ≡ artifact role "ncl_rol_prd_bnd_1" ∷ artifact database "ncl_db_prd_bnd_1" ∷ []
unfolding generate_account generate_password pick_classes pick shuffle draw account_names
    create_objects create_role_sql create_database_sql grant_database_sql exec_context quote_ident
    on_cluster get double_all
generate_account-stopped = refl

initialize_service-KeepsCount_example :
    KeepsCount [] (initialize_service sample_sdk refusing sample_urls service.service_config [])
initialize_service-KeepsCount_example =
    initialize_service-KeepsCount sample_sdk refusing sample_urls service.service_config []

abbrev expected : Url
expected = record {
  scheme = "http";
  user = some ("u", "p");
  host = "db";
  path = "/d";
  query = ("secure", "true" ∷ []) ∷ [];
}

account_url-admin : account_url sample_url "u" "p" "d" ≡ expected
unfolding account_url del
account_url-admin = refl

account_urls-both : account_urls sample_urls "http://db" "u" "p" "d" "h" ≡ ok ("/d", "/d")
unfolding account_urls account_url
account_urls-both = refl

account_urls-carry_example : Carries sample_urls "http://db" "u" "p" "d" "h" "/d" "/d"
account_urls-carry_example =
    account_urls-carry sample_urls "http://db" "u" "p" "d" "h" "/d" "/d" account_urls-both
