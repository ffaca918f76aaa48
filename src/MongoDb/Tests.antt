-- ===== src/MongoDb/Tests.antt =====
-- The theorems about the MongoDB provider at concrete inputs, and tests of its functions.
use bindings.MongoDb.Service.Guarded.{initialize_self_hosted-Guards, Guards}
use bindings.MongoDb.Service.{initialize_self_hosted}
use bindings.MongoDb.Grants.Privileges.{build_role_privileges-exact, InDatabase}
use bindings.MongoDb.Grants.Entitled.{collections, Distinct, any_entitled, allows}
use bindings.MongoDb.Grants.{
  write_actions_coll, read_actions_db, read_actions_coll, to_privileges, insert, lookup, contains,
  add_action, add_each, add_actions, add_role, add_grant, grant_role, matches_target, same_role,
  validate_grant_target, atlas_role, baseline_role, add_grant_roles, merge_grants, contains_role,
  Privilege, build_role_privileges, AtlasRole, build_atlas_roles,
}
use bindings.MongoDb.Grants.Roles.{
  build_atlas_roles-exact, StartsWithBaseline, DistinctRoles, any_role,
}
use bindings.Exec.{vendor, GoError, ok, is_ok}
use bindings.Common.{
  has_prefix, some, ◌||◌, none, Option, false, refl, true, ◌≡◌, ◌∷◌, [], String, ◌≢◌, GoMap, List,
  All,
}
use bindings.MongoDb.Accounts.Created.{generate_self_hosted-Provides, Provides, Reports}
use bindings.MongoDb.Client.{update_role, Command, Cluster}
use bindings.MongoDb.Urls.{contains_comma, account_url, validate_service_url, build_account_url}
use bindings.MongoDb.Grants.Validity.{build-is_ok, all_grantable}
use bindings.MongoDb.Users.Atlas.{set_user_grants-GrantsAccepted, GrantsAccepted}
use bindings.MongoDb.Users.{set_user_grants}
use bindings.MongoDb.Accounts.Deleting.{generate_self_hosted-Deletes, Deletes}
use bindings.MongoDb.Urls.Carries.{build_account_url-Carries, Carries, ChangesHost}
use bindings.Sdk.{Grant, read, full}
use bindings.MongoDb.Accounts.{MongoDb, Session, generate_self_hosted}
use bindings.Url.{UrlLib, Url}
use text.Mathlib.TextLemmas.{cons≢nil}
use bindings.Samples.{sample_sdk, sample_urls, sample_url}

-- A cluster without the role of the account: an update of a role fails, all else succeeds.
abbrev role_missing : Command → Option GoError
role_missing (update_role n p) = some (vendor 31 "RoleNotFound")
role_missing _ = none

abbrev cluster : Cluster
cluster = record {
  run = λ h c. role_missing c;
  users = λ h name. ok 0;
  connect = λ h url. none;
  ping = λ h url. none;
  disconnect = λ h url. none;
  probe = λ h url. some (vendor 13 "Unauthorized");
  new_request = λ r. none;
  send = λ h r. ok (record { status = 201; read = ok "" });
  path_escape = λ text. text;
  error_text = λ text. text;
}

abbrev self_hosted : MongoDb
self_hosted = record { is_atlas = false; service_config = []; user_wait_secs = 0 }

abbrev atlas : MongoDb
atlas = record {
  is_atlas = true;
  user_wait_secs = 7;
  service_config = ("project_id", "p") ∷ ("cluster_name", "c") ∷ [];
}

abbrev account : GoMap
account = ("username", "u") ∷ ("password", "s") ∷ ("database", "d") ∷ []

abbrev grants : List Grant
grants =
    record { grant_type = read; grant_target = "*" }
    ∷ record { grant_type = full; grant_target = "items" }
    ∷ record { grant_type = read; grant_target = "items" }
    ∷ []

abbrev privileges : List Privilege
privileges =
    record {
      database = "d";
      collection = "";
      actions =
          "find" ∷ "changeStream" ∷ "collStats" ∷ "listIndexes" ∷ "listCollections" ∷ "dbStats"
          ∷ [];
    }
    ∷ record {
      database = "d";
      collection = "items";
      actions =
          "find" ∷ "changeStream" ∷ "collStats" ∷ "listIndexes" ∷ "insert" ∷ "update" ∷ "remove"
          ∷ "createCollection" ∷ "createIndex" ∷ "dropCollection" ∷ "dropIndex" ∷ "collMod"
          ∷ "convertToCapped" ∷ [];
    }
    ∷ []

build_role_privileges-grants : build_role_privileges sample_sdk "d" grants ≡ ok privileges
unfolding build_role_privileges merge_grants validate_grant_target matches_target has_prefix
    add_grant add_actions add_each add_action contains lookup insert to_privileges read_actions_coll
    read_actions_db write_actions_coll
build_role_privileges-grants = refl

build_role_privileges-exact_example :
    ((t a : String) → allows privileges t a ≡ any_entitled sample_sdk grants t a)
    × Distinct (collections privileges)
    × InDatabase "d" privileges
build_role_privileges-exact_example =
    build_role_privileges-exact sample_sdk "d" grants privileges build_role_privileges-grants

abbrev roles : List AtlasRole
roles =
    baseline_role
    ∷ atlas_role "read" "d" ""
    ∷ atlas_role "readWrite" "d" "items"
    ∷ atlas_role "read" "d" "items"
    ∷ []

build_atlas_roles-grants : build_atlas_roles sample_sdk "d" grants ≡ ok roles
unfolding build_atlas_roles add_grant_roles validate_grant_target matches_target has_prefix
    grant_role add_role contains_role
build_atlas_roles-grants = refl

build_atlas_roles-exact_example :
    ((r : AtlasRole)
      → contains_role roles r ≡ (same_role baseline_role r || any_role sample_sdk "d" grants r))
    × DistinctRoles roles
    × StartsWithBaseline roles
build_atlas_roles-exact_example =
    build_atlas_roles-exact sample_sdk "d" grants roles build_atlas_roles-grants

build-is_ok_example :
    (is_ok (build_role_privileges sample_sdk "d" grants) ≡ all_grantable sample_sdk grants)
    × (is_ok (build_atlas_roles sample_sdk "d" grants) ≡ all_grantable sample_sdk grants)
build-is_ok_example = build-is_ok sample_sdk "d" grants

set_user_grants-GrantsAccepted_example :
    GrantsAccepted sample_sdk cluster atlas account grants
      (set_user_grants sample_sdk cluster atlas account grants [])
set_user_grants-GrantsAccepted_example =
    set_user_grants-GrantsAccepted sample_sdk cluster atlas refl account grants []

abbrev fresh : Session
fresh = record { history = []; artifacts = [] }

generate_self_hosted-Provides_example :
    let out = generate_self_hosted cluster "u" "s" "d" true fresh in
    Reports fresh out.1 × Provides "u" "d" true out
generate_self_hosted-Provides_example = generate_self_hosted-Provides cluster "u" "s" "d" true fresh

abbrev user_name : String
user_name = "u"

user_name-ne-empty : user_name ≢ ""
user_name-ne-empty = cons≢nil

generate_self_hosted-Deletes_example :
    All
      (Deletes sample_sdk cluster self_hosted)
      (generate_self_hosted cluster "u" "s" "d" true fresh).1.artifacts
generate_self_hosted-Deletes_example =
    generate_self_hosted-Deletes sample_sdk cluster self_hosted "u" "s" "d" true fresh refl
      user_name-ne-empty refl

abbrev mongo_url : Url
mongo_url = record sample_url { scheme = "mongodb" }

abbrev mongo_urls : UrlLib
mongo_urls = record sample_urls { parse = λ text. ok mongo_url }

mongo_urls-ChangesHost : ChangesHost mongo_urls
mongo_urls-ChangesHost = record {
  scheme = λ u host. refl;
  user = λ u host. refl;
  query = λ u host. refl;
}

build_account_url-text : build_account_url mongo_urls "mongodb://db" "u" "s" "d" "h" ≡ ok "/d"
unfolding build_account_url validate_service_url account_url contains_comma
build_account_url-text = refl

build_account_url-Carries_example : Carries mongo_urls "mongodb://db" "u" "s" "d" "/d"
build_account_url-Carries_example =
    build_account_url-Carries mongo_urls "mongodb://db" "u" "s" "d" "h" "/d" mongo_urls-ChangesHost
      build_account_url-text

initialize_self_hosted-Guards_example :
    Guards mongo_urls "mongodb://db" []
      (initialize_self_hosted cluster sample_sdk mongo_urls (("url", "mongodb://db") ∷ []) [])
initialize_self_hosted-Guards_example =
    initialize_self_hosted-Guards sample_sdk cluster mongo_urls (("url", "mongodb://db") ∷ []) []
