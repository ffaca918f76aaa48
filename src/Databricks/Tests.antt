-- ===== src/Databricks/Tests.antt =====
-- The theorems about the Databricks provider at concrete inputs, and tests of its functions.
use bindings.Sql.Settled.{Settled}
use bindings.Databricks.Perms.Performed.{apply_perms-Settled_of_databricks, Effect}
use bindings.Common.{
  ◌++◌, get, contains, false, trim_prefix, trim_last, some, has_prefix, refl, ℕ, [], ◌≡◌,
  after_last, ◌∷◌, none, Bool, GoMap, List,
}
use bindings.Sdk.{schema, user, GrantType, read, artifact, full, Grant, BindingMetadata}
use bindings.Sql.{query_context, exec_context, query_row, History}
use bindings.Databricks.Accounts.{
  create_objects, set_up, token_lifetime, first_named, shared_schema, create_token,
  find_service_principal, account_names, create_account_credential, account_url, QueryLib,
  generate_account,
}
use bindings.Databricks.Artifacts.{delete_artifact}
use bindings.Databricks.Accounts.Provision.{
  generate_account-IsProvisioned_of_databricks, outcome, Outcome,
}
use bindings.Databricks.Perms.{
  statement, apply_stmt, resolve_table, table_specific, apply_grant, apply_perms,
}
use bindings.Databricks.Workspace.{
  update_permissions, create_principal, create_obo_token, delete_principal, list_all, create_secret,
  Workspace, IntLib, World, Principal,
}
use bindings.Databricks.Service.Connections.{initialize_service-KeepsCount_of_databricks}
use bindings.Sql.Executions.{executions, Execution}
use bindings.Exec.{message, err, ok}
use bindings.Samples.{refusing, sample_urls, accepting, sample_text, sample_sdk}
use bindings.Databricks.Quoting.{read_ident-quote_ident, quote_ident, read_ident}
use bindings.Databricks.Accounts.Credential.{create_account_credential-IsIssued, IsIssued}
use bindings.Databricks.Service.{initialize_service, ClientLib}
use bindings.Sql.Grants.{apply_each}
use bindings.Databricks.Auth.{config_of, warehouse_id}
use bindings.Sql.Perms.{parse_operation}
use bindings.Databricks.{Databricks}
use mathlib.Core.List
use bindings.Sql.Connections.{KeepsCount}

abbrev service_config : GoMap
service_config =
    ("host", "h") ∷ ("http_path", "/sql/1.0/warehouses/w") ∷ ("catalog", "c") ∷ ("token", "t") ∷ []

-- The SQL plane of a service that has a config.
abbrev service : Databricks
service = record {
  service_config = service_config;
  cfg = config_of sample_text service_config;
  warehouse_id = "w";
}

abbrev ints : IntLib ℕ
ints = record { zero_int = 0; parse_int = λ s. ok 3 }

abbrev queries : QueryLib
queries = record { encode_values = λ v. "q"; query_escape = λ s. s }

abbrev clients : ClientLib
clients = record { new_workspace_client = λ cfg. none; new_connector = λ h p cfg c. none }

abbrev old_principal : Principal
old_principal = record { id = "7"; application_id = "app"; display_name = "old" }

-- A workspace without secrets: a token is issued in their place.
abbrev workspace : Workspace ℕ
workspace = record {
  list_principals = λ calls filter. ok (old_principal ∷ []);
  create_principal =
      λ calls name. ok (record { id = "8"; application_id = "new"; display_name = name });
  delete_principal = λ calls id. none;
  create_secret = λ calls id. err (message "no secrets");
  create_obo_token = λ calls request. ok "tok";
  update_permissions = λ calls warehouse id. none;
  is_missing = λ e. false;
  server_at = λ calls. accepting;
}

abbrev fresh : World ℕ
fresh = record { calls = []; session = record { history = []; artifacts = [] } }

abbrev no_metadata : BindingMetadata
no_metadata = record { account = []; config = []; grants_applied = [] }

generate_account-IsProvisioned_of_databricks_example :
    Outcome sample_sdk sample_text ints workspace service queries sample_urls "b" no_metadata none
      false fresh
      (outcome sample_sdk sample_text ints workspace service queries sample_urls "b" no_metadata
        none false fresh)
generate_account-IsProvisioned_of_databricks_example =
    generate_account-IsProvisioned_of_databricks sample_sdk sample_text ints workspace service
      queries sample_urls "b" no_metadata none false fresh

-- The user and the schema are reported.
generate_account-artifacts :
    (outcome sample_sdk sample_text ints workspace service queries sample_urls "b" no_metadata none
      false fresh).1.session.artifacts
    ≡ artifact user "ncl_usr_prd_b" ∷ artifact schema "ncl_sch_prd_b" ∷ []
unfolding generate_account account_names shared_schema find_service_principal list_all first_named
    create_principal set_up create_account_credential create_secret create_token token_lifetime
    create_obo_token update_permissions create_objects exec_context get
generate_account-artifacts = refl

abbrev after_credential : World ℕ
after_credential =
    (create_account_credential sample_sdk sample_text ints workspace service old_principal fresh).1

create_account_credential-token :
    create_account_credential sample_sdk sample_text ints workspace service old_principal fresh
    ≡ (ok ("pat", "tok"), after_credential)
unfolding create_account_credential create_secret create_token token_lifetime create_obo_token get
create_account_credential-token = refl

create_account_credential-IsIssued_example :
    IsIssued sample_sdk sample_text ints workspace service old_principal []
      ("pat", "tok")
      after_credential.calls
create_account_credential-IsIssued_example =
    create_account_credential-IsIssued sample_sdk sample_text ints workspace service old_principal
      fresh after_credential ("pat", "tok") create_account_credential-token

abbrev after_delete : World ℕ
after_delete =
    (delete_artifact sample_sdk sample_text ints workspace service (artifact user "old") fresh).1

abbrev grants : List Grant
grants =
    record { grant_type = full; grant_target = "*" }
    ∷ record { grant_type = read; grant_target = "t" }
    ∷ record { grant_type = GrantType.other "odd"; grant_target = "*" }
    ∷ []

abbrev granted : List Grant
granted =
    record { grant_type = full; grant_target = "*" }
    ∷ record { grant_type = read; grant_target = "t" }
    ∷ []

abbrev after_grants : History
after_grants = (apply_perms sample_sdk accepting service "grant" grants "s" "p" []).1

apply_perms-grants :
    apply_perms sample_sdk accepting service "grant" grants "s" "p" [] ≡ (ok granted, after_grants)
unfolding apply_perms apply_grant apply_each parse_operation table_specific resolve_table apply_stmt
    statement query_row query_context exec_context
apply_perms-grants = refl

apply_perms-Settled_of_databricks_example :
    (is_grant : Bool) × (parse_operation "grant" ≡ ok is_grant)
    × (more : List Execution) × (executions after_grants ≡ List.◌++◌ (executions []) more)
    × Settled (Effect sample_sdk accepting service "s" is_grant "p") grants granted more
apply_perms-Settled_of_databricks_example =
    apply_perms-Settled_of_databricks sample_sdk accepting service "grant" "s" "p" grants granted []
      after_grants apply_perms-grants

initialize_service-KeepsCount_of_databricks_example :
    KeepsCount [] (
      initialize_service sample_sdk sample_text sample_urls ints clients refusing service_config [])
initialize_service-KeepsCount_of_databricks_example =
    initialize_service-KeepsCount_of_databricks sample_sdk sample_text sample_urls ints clients
      refusing service_config []

read_ident-quote_ident_example : read_ident (quote_ident "a`b" ++ ".t") ≡ some ("a`b", ".t")
read_ident-quote_ident_example = read_ident-quote_ident "a`b" ".t" refl

warehouse_id-of_path : warehouse_id service_config ≡ "w"
unfolding warehouse_id after_last has_prefix trim_last trim_prefix contains get
warehouse_id-of_path = refl

account_url-token : account_url queries "h" "/p" "c" "s" "pat" "app" "tok" ≡ "token:tok@h:443/p?q"
unfolding account_url
account_url-token = refl
