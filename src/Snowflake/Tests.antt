-- ===== src/Snowflake/Tests.antt =====
-- The theorems about the Snowflake provider at concrete inputs, and tests of its functions.
use bindings.Sql.Settled.{Settled}
use bindings.Sql.{query_context, exec_context, History, Cursor}
use bindings.Snowflake.Perms.{
  names_of, name_index, scan_show_names, show_objects, resolve_table_or_view, table_specific,
  object_scope, apply_stmt, statement, apply_class, schema_wide, apply_grant, apply_perms,
  match_name, has_name,
}
use bindings.Snowflake.Perms.Performed.{apply_perms-Settled_of_snowflake, Effect}
use bindings.Snowflake.Accounts.Provision.{
  generate_account-IsProvisioned_of_snowflake, account_plan,
}
use bindings.Sdk.{role, artifact, full, read, Grant}
use bindings.Sql.Plan.Runs.{IsProvisioned}
use bindings.Snowflake.Perms.Case.{statement-ignores_case}
use bindings.Snowflake.Accounts.{
  KeyPair, Names, generate_key_pair, shared_schema, account_names, create_objects, generate_account,
}
use mathlib.Core.List.{◌++◌}
use bindings.Common.{
  ◌⊎◌, get, refl, some, none, String, true, false, ◌≡◌, [], ◌∷◌, ℕ, All, List, Bool,
}
use bindings.Snowflake.Auth.Complete.{auth_config-HasCredentials, HasCredentials, IsFor}
use bindings.Sql.Executions.{executions, Execution}
use bindings.Samples.{sample_sdk-NamesNotEmpty, refusing, accepting, sample_sdk, sample_text}
use bindings.Snowflake.Auth.{
  AuthType, base_config, config_for, infer_authenticator, Config, auth_config, KeyLib,
}
use bindings.Snowflake.Accounts.Rollback.{generate_account-Deletes_of_snowflake, Deletes}
use bindings.Sql.Grants.{apply_each}
use bindings.Exec.{ok, Result, is_ok}
use bindings.Sql.Perms.{parse_operation}
use bindings.Snowflake.{Snowflake, is_unquoted_ident}
use bindings.Sql.Plan.{Session}

abbrev service : Snowflake
service = record {
  service_config =
      ("account", "a")
      ∷ ("user", "admin")
      ∷ ("database", "d")
      ∷ ("warehouse", "w")
      ∷ ("password", "secret")
      ∷ [];
}

-- Keys are numbers.
abbrev keys : KeyLib ℕ
keys = record {
  pem_decode = λ s. none;
  parse_pkcs8 = λ s. ok (some 7);
  parse_pkcs1 = λ s. ok 7;
  generate_key = λ bits. ok bits;
  marshal_public_key = λ key. ok "der";
  encode_base64 = λ s. s;
  encode_private_key = λ key. "pem";
  dsn = λ cfg. ok cfg.user;
}

abbrev columns : Cursor → Result (List String)
columns c = ok ("created_on" ∷ "name" ∷ [])

abbrev grants : List Grant
grants =
    record { grant_type = read; grant_target = "*" }
    ∷ record { grant_type = full; grant_target = "1" }
    ∷ record { grant_type = read; grant_target = "missing" }
    ∷ []

abbrev granted : List Grant
granted =
    record { grant_type = read; grant_target = "*" }
    ∷ record { grant_type = full; grant_target = "1" }
    ∷ []

abbrev after_grants : History
after_grants =
    (apply_perms sample_sdk sample_text accepting columns service "grant" grants "s" "r" []).1

apply_perms-grants :
    apply_perms sample_sdk sample_text accepting columns service "grant" grants "s" "r" []
    ≡ (ok granted, after_grants)
unfolding apply_perms apply_grant apply_each parse_operation schema_wide apply_class apply_stmt
    table_specific resolve_table_or_view show_objects scan_show_names name_index names_of match_name
    has_name statement query_context exec_context
apply_perms-grants = refl

apply_perms-Settled_of_snowflake_example :
    (is_grant : Bool) × (parse_operation "grant" ≡ ok is_grant)
    × (more : List Execution) × (executions after_grants ≡ executions [] ++ more)
    × Settled
        (Effect sample_sdk sample_text accepting columns service "s" is_grant "r")
        grants
        granted
        more
apply_perms-Settled_of_snowflake_example =
    apply_perms-Settled_of_snowflake sample_sdk sample_text accepting columns service "grant" "s"
      "r" grants granted [] after_grants apply_perms-grants

abbrev fresh : Session
fresh = record { history = []; artifacts = [] }

generate_account-IsProvisioned_of_snowflake_example :
    let out = generate_account sample_sdk sample_text refusing service keys "b" none false fresh in
    ((out.1 ≡ fresh) × (is_ok out.0 ≡ false))
    ⊎ ((n : Names) × (pair : KeyPair ℕ) × (account_names sample_sdk "b" false none ≡ ok n)
        × (generate_key_pair keys ≡ ok pair)
        × IsProvisioned
            (account_plan sample_sdk sample_text refusing service n pair.public_key_b64 false)
            fresh
            out)
generate_account-IsProvisioned_of_snowflake_example =
    generate_account-IsProvisioned_of_snowflake sample_sdk sample_text refusing service keys "b"
      none false fresh

generate_account-Deletes_of_snowflake_example :
    All
      (Deletes sample_sdk sample_text refusing service)
      (generate_account sample_sdk sample_text refusing service keys "b" none false
        fresh).1.artifacts
generate_account-Deletes_of_snowflake_example =
    generate_account-Deletes_of_snowflake sample_sdk sample_text refusing service keys "b" none
      false fresh sample_sdk-NamesNotEmpty refl

-- A role, then the two grants, the second of which fails: one artifact.
generate_account-one_artifact :
    (generate_account sample_sdk sample_text refusing service keys "b" none false fresh).1.artifacts
    ≡ artifact role "nCL_ROL_PRD_b" ∷ []
unfolding generate_account create_objects account_names shared_schema generate_key_pair exec_context
generate_account-one_artifact = refl

abbrev password_config : Config ℕ
password_config = record (base_config service.service_config AuthType.snowflake) {
  password = "secret";
}

auth_config-password : auth_config keys sample_text service.service_config ≡ ok password_config
unfolding auth_config infer_authenticator config_for get
auth_config-password = refl

auth_config-HasCredentials_example :
    IsFor keys sample_text service.service_config password_config
    × HasCredentials keys sample_text service.service_config password_config
auth_config-HasCredentials_example =
    auth_config-HasCredentials keys sample_text service.service_config password_config
      auth_config-password

orders-found : has_name ("Orders" ∷ []) "Orders" ≡ true
unfolding has_name
orders-found = refl

orders-plain : is_unquoted_ident "Orders" ≡ true
unfolding is_unquoted_ident
orders-plain = refl

upper_orders-plain : is_unquoted_ident "ORDERS" ≡ true
unfolding is_unquoted_ident
upper_orders-plain = refl

statement-ignores_case_example :
    (match_name sample_text ("Orders" ∷ []) "Orders" false
      ≡ some (record { name = "Orders"; is_view = false }))
    × (statement sample_sdk sample_text service "s" true "r" "SELECT"
          (object_scope sample_sdk sample_text service "s" false "Orders")
        ≡ statement sample_sdk sample_text service "s" true "r" "SELECT"
            (object_scope sample_sdk sample_text service "s" false "ORDERS"))
statement-ignores_case_example =
    statement-ignores_case sample_sdk sample_text service "s" true false "r" "SELECT" "Orders"
      ("Orders" ∷ []) orders-found orders-plain upper_orders-plain refl
