-- ===== src/MongoDb/AtlasTests.antt =====
-- The theorems about the accounts of the MongoDB provider at concrete inputs, and tests.
use bindings.MongoDb.Atlas.{
  deadline_after, poll_user, wait_for_atlas_user, poll_interval, has, choose_client, Clock,
  user_wait, generate_atlas_account,
}
use bindings.MongoDb.Generation.Names.{account_names-bounds}
use bindings.Common.{
  ◌<◌, ◌≤◌, ◌||◌, not, refl, if◌then◌else◌, ◌&&◌, String, false, ◌*◌, none, some, [], get, List,
  length, arith, ◌∷◌, true, ℕ, Option, ◌≡◌, GoMap,
}
use Prim.Native.String.{count}
use bindings.Sdk.{user, artifact, Artifact, BindingMetadata}
use bindings.MongoDb.Urls.{account_url, contains_comma, validate_service_url, build_account_url}
use bindings.MongoDb.Client.{
  ping_url, connect_url, ping_mongo_url, users_path, check_status, atlas_do, create_database_user,
  Cluster,
}
use bindings.MongoDb.Atlas.Created.{generate_atlas_account-IsReported, IsReported}
use bindings.MongoDb.Atlas.Access.{choose_client-is_ok}
use bindings.MongoDb.Grants.{atlas_base_roles, add_grant_roles, build_atlas_roles}
use bindings.MongoDb.Users.{new_atlas_database_user}
use bindings.MongoDb.Generation.{shared_database, identity, generate_account}
use bindings.MongoDb.Generation.Returns.{generate_account-Returns}
use bindings.Exec.{message, Done, err, ok, GoError, Result, is_ok}
use bindings.MongoDb.Accounts.{account_names, MongoDb, Session}
use bindings.Samples.{sample_sdk}
use bindings.Url.{UrlLib, Url}
use bindings.MongoDb.Atlas.Waiting.{IsClock, Returns}

-- The API accepts everything, and a login fails or not.
abbrev cluster : Option GoError → Cluster
cluster login = record {
  run = λ h c. none;
  users = λ h name. ok 0;
  connect = λ h url. none;
  ping = λ h url. login;
  disconnect = λ h url. none;
  probe = λ h url. none;
  new_request = λ r. none;
  send = λ h r. ok (record { status = 201; read = ok "" });
  path_escape = λ text. text;
  error_text = λ text. text;
}

abbrev locked : Cluster
locked = cluster (some (message "no such user"))

-- Five seconds pass at every event.
abbrev clock : Clock
clock = record { now = λ h. length h * poll_interval; cancelled = λ h. none }

clock-IsClock : IsClock clock
clock-IsClock = (λ e h. omega arith, λ h. omega arith)

abbrev mongodb_url : Url
mongodb_url = record { scheme = "mongodb"; user = none; host = "db"; path = ""; query = [] }

abbrev urls : UrlLib
urls = record { parse = λ s. ok mongodb_url; to_string = λ u. u.host; set_hostname = λ u host. u }

abbrev atlas : MongoDb
atlas = record {
  is_atlas = true;
  service_config = ("url", "mongodb://db") ∷ ("project_id", "p") ∷ [];
  user_wait_secs = 7;
}

abbrev no_metadata : BindingMetadata
no_metadata = record { account = []; config = []; grants_applied = [] }

abbrev fresh : Session
fresh = record { history = []; artifacts = [] }

abbrev hex : ℕ → Result String
hex n = ok "s"

generate_account-Returns_example :
    Returns
      (generate_account sample_sdk locked clock urls hex atlas 3 "b" no_metadata none false fresh)
generate_account-Returns_example =
    generate_account-Returns sample_sdk locked clock urls hex atlas clock-IsClock 2 "b" no_metadata
      none false fresh (omega arith)

-- A user that cannot log in is reported with the error, after the two polls that the time allows.
abbrev timed_out : Option (List Artifact)
timed_out =
    elim (generate_account sample_sdk locked clock urls hex atlas 3 "b" no_metadata none false
      fresh) [ none ↦ none | some (r, s) ↦ if is_ok r then none else some s.artifacts ]

generate_account-timed_out : timed_out ≡ some (artifact user "cl_usr_prd_b" ∷ [])
unfolding generate_account identity account_names shared_database generate_atlas_account
    create_database_user atlas_do check_status new_atlas_database_user users_path atlas_base_roles
    wait_for_atlas_user poll_user ping_mongo_url connect_url ping_url build_account_url
    validate_service_url contains_comma account_url get
generate_account-timed_out = refl

abbrev after_account : Session
after_account =
    elim (generate_atlas_account (cluster none) clock urls atlas sample_sdk 3 "u" "s" "d" true
      fresh) [ none ↦ fresh | some (r, s) ↦ s ]

generate_atlas_account-derived :
    generate_atlas_account (cluster none) clock urls atlas sample_sdk 3 "u" "s" "d" true fresh
    ≡ some (ok tt, after_account)
unfolding generate_atlas_account create_database_user atlas_do check_status new_atlas_database_user
    users_path build_atlas_roles add_grant_roles wait_for_atlas_user poll_user ping_mongo_url
    connect_url ping_url build_account_url validate_service_url contains_comma account_url get
generate_atlas_account-derived = refl

abbrev success : Result Done
success = ok tt

generate_atlas_account-IsReported_example :
    IsReported
      (cluster none)
      clock
      sample_sdk
      urls
      atlas
      3
      "u"
      "s"
      (build_atlas_roles sample_sdk "d" [])
      fresh
      (ok tt, after_account)
generate_atlas_account-IsReported_example =
    generate_atlas_account-IsReported (cluster none) clock sample_sdk urls atlas 3 "u" "s" "d" true
      fresh after_account (ok tt) generate_atlas_account-derived

-- A wait of more than 9223372036 seconds does not fit in a time.Duration.
deadline_after-wraps : deadline_after 0 18446744074 ≡ 290448384
unfolding deadline_after
deadline_after-wraps = refl

abbrev both_kinds : GoMap
both_kinds = ("public_key", "a") ∷ ("private_key", "b") ∷ ("client_id", "c") ∷ []

choose_client-is_ok_example : is_ok (choose_client both_kinds) ≡ (
    ((has both_kinds "public_key" && has both_kinds "private_key")
      && not (has both_kinds "client_id" || has both_kinds "client_secret"))
    || ((has both_kinds "client_id" && has both_kinds "client_secret")
        && not (has both_kinds "public_key" || has both_kinds "private_key")))
choose_client-is_ok_example = choose_client-is_ok both_kinds

account_names-bounds_example :
    (count (account_names "bnd_2Zr3b9sWn1QwErTyUiOpAsDfGhJ" false).0 ≤ 42)
    × (count (account_names "bnd_2Zr3b9sWn1QwErTyUiOpAsDfGhJ" false).1 < 64)
account_names-bounds_example =
    account_names-bounds "bnd_2Zr3b9sWn1QwErTyUiOpAsDfGhJ" false (omega arith)

user_wait-default : user_wait (λ s. err (message "not read")) [] ≡ ok 120
unfolding user_wait get
user_wait-default = refl
