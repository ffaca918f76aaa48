-- ===== src/MongoDb/Atlas.antt =====
-- initAtlas, generateAtlasAccount and waitForAtlasUser of mongodb/mongodb_binding.go.
pub mod Waiting
pub mod Access
pub mod Created
use bindings.Common.{
  ◌-◌, ◌%◌, false, zero, [], ◌*◌, in_quotes, ◌∷◌, true, ◌++◌, ltb, config_keys, ◌+◌, suc, ◌&&◌,
  some, ◌=?◌, List, ◌==◌, if◌then◌else◌, none, ◌||◌, not, get, trim_last, Bool, Option, String, ℕ,
  GoMap,
}
use bindings.MongoDb.Service.{initialize_self_hosted, check_reachable}
use bindings.Exec.{
  pure, describe, ◌>>=◌, lift, message, check, ◌>>◌, err, Exec, ok, Done, Result, GoError,
}
use bindings.MongoDb.Client.{
  verify_access, waited, create_database_user, ping_mongo_url, History, Cluster,
}
use bindings.MongoDb.Urls.{validate_service_url, build_account_url}
use bindings.Sdk.{user, Sdk}
use bindings.MongoDb.Grants.{atlas_base_roles, build_atlas_roles, AtlasRole}
use bindings.MongoDb.Accounts.{report, Session, MongoDb}
use bindings.MongoDb.Users.{new_atlas_database_user}
use bindings.Url.{UrlLib}

-- The result of strconv.Atoi.
pub data ℤ : Type 0 where
  pos negsuc : ℕ → ℤ

-- What newAtlasDigestClient and newAtlasOAuthClient make: the base URL, the project and the two
-- halves of the credentials.
pub data AtlasClient : Type 0 where
  digest_client oauth_client : String → String → String → String → AtlasClient

unfoldable pub user_wait : (String → Result ℤ) → GoMap → Result ℕ
user_wait atoi c =
    let text = get c "user_wait_secs" in
    if text == "" then ok 120 else non_negative text (atoi text)
  where
    non_negative : String → Result ℤ → Result ℕ
    non_negative text (ok (pos n)) = ok n
    non_negative text (ok (negsuc _)) = err (
        message
          ("invalid user_wait_secs value " ++ in_quotes text ++ ": must be a non-negative integer"))
    non_negative text (err _) = err (
        message
          ("invalid user_wait_secs value " ++ in_quotes text ++ ": must be a non-negative integer"))

unfoldable pub base_url : GoMap → String
base_url c =
    let trimmed = trim_last 47 (get c "api_base_url") in
    if trimmed == "" then "https://cloud.mongodb.com" else trimmed

abbrev pub has : GoMap → String → Bool
has c key = not (get c key == "")

-- The `switch` on the two kinds of credentials.
unfoldable pub choose_client : GoMap → Result AtlasClient
unfolding base_url
choose_client c =
    let has_api_key = has c "public_key" || has c "private_key" in
    let has_service_account = has c "client_id" || has c "client_secret" in
    if has_api_key && has_service_account
    then err
        (message "configure either public_key/private_key or client_id/client_secret, not both")
    else if has_api_key
    then (if has c "public_key" && has c "private_key"
        then ok (
            digest_client (base_url c) (get c "project_id") (get c "public_key")
              (get c "private_key"))
        else err (message "both public_key and private_key are required for api key auth"))
    else if has_service_account
    then (if has c "client_id" && has c "client_secret"
        then ok (
            oauth_client (base_url c) (get c "project_id") (get c "client_id")
              (get c "client_secret"))
        else err (message "both client_id and client_secret are required for service account auth"))
    else err (
        message
          "atlas api credentials are required: public_key/private_key (api key) or client_id/client_secret (service account)")

-- The service and its client; `clusters` is what a client connects to.
unfoldable pub initialize_atlas :
    Sdk
    → UrlLib
    → (String → Result ℤ)
    → (AtlasClient → Cluster)
    → GoMap
    → Exec History (MongoDb × AtlasClient)
unfolding user_wait choose_client
initialize_atlas sdk urls atoi clusters c = do
  check (
      sdk.verify_keys (config_keys c) ("url" ∷ "project_id" ∷ []) (
        "public_key" ∷ "private_key" ∷ "client_id" ∷ "client_secret" ∷ "cluster_name"
        ∷ "api_base_url" ∷ "user_wait_secs" ∷ []))
  lift (validate_service_url urls (get c "url"))
  secs ← lift (user_wait atoi c)
  client ← lift (choose_client c)
  describe "error verifying atlas api access" (verify_access (clusters client) (get c "project_id"))
  describe "error verifying atlas cluster connection"
      (check_reachable (clusters client) (get c "url"))
  pure (record { is_atlas = true; service_config = c; user_wait_secs = secs }, client)

-- `cluster` is what the driver connects to, for a self-hosted service.
unfoldable pub initialize_service :
    Sdk
    → UrlLib
    → (String → Result ℤ)
    → (AtlasClient → Cluster)
    → Cluster
    → Bool
    → GoMap
    → Exec History MongoDb
unfolding initialize_atlas initialize_self_hosted
initialize_service sdk urls atoi clusters cluster is_atlas c =
    if is_atlas
    then (initialize_atlas sdk urls atoi clusters c >>= λ (b, _). pure b)
    else initialize_self_hosted cluster sdk urls c

-- time.Now in nanoseconds, and the error of a context that is done.
pub record Clock : Type 0 where
  pub now : History → ℕ
  pub cancelled : History → Option GoError

abbrev pub second : ℕ
second = 1000000000

-- time.Duration(secs) * time.Second in 64 bits with a sign, added to a time; the clock counts from
-- Go's zero time, before which no deadline falls.
unfoldable pub deadline_after : ℕ → ℕ → ℕ
deadline_after start secs =
    let d = (secs * second) % 18446744073709551616 in
    if ltb d 9223372036854775808 then start + d else start - (18446744073709551616 - d)

-- atlasUserPollInterval
abbrev pub poll_interval : ℕ
poll_interval = 5000000000

-- A run that may not have ended when its fuel is spent.
abbrev pub Run : Type 0 → Type 0 → Type 0
Run S A = Option (Result A × S)

-- What a round makes of its ping and of the clock; `again` is the next round.
abbrev pub round :
    String
    → Result Done
    → History
    → (passed : Bool) → (stopped : Option GoError) → (again : Run History Done) → Run History Done
round name (ok _) h passed stopped again = some (ok tt, h)
round name (err e) h true stopped again =
    some
      (err (GoError.wrap ("timed out waiting for atlas user " ++ name ++ " to become usable") e), h)
round name (err e) h false (some stopped) again = some (err stopped, h)
round name (err e) h false none again = again

module _ (cluster : Cluster) (clock : Clock) where
  module _ (user_url name : String) (deadline : ℕ) where
    -- The rounds of the loop; the fuel bounds their number.
    unfoldable pub poll_user : ℕ → History → Run History Done
    unfolding ping_mongo_url
    poll_user zero h = none
    poll_user (suc fuel) h =
        let (r, h1) = ping_mongo_url cluster user_url h in
        let again = poll_user fuel (waited ∷ h1) in
        round name r h1 (ltb deadline (clock.now h1)) (clock.cancelled h1) again

  module _ (urls : UrlLib) (b : MongoDb) where
    abbrev pub poll_at : ℕ → String → History → Result String → Run History Done
    poll_at fuel name h (err e) = some (err (GoError.wrap "error building atlas user url" e), h)
    poll_at fuel name h (ok user_url) =
        poll_user user_url name (deadline_after (clock.now h) b.user_wait_secs) fuel h

    unfoldable pub wait_for_atlas_user : ℕ → String → String → History → Run History Done
    unfolding poll_user deadline_after
    wait_for_atlas_user fuel name password h =
        if b.user_wait_secs =? 0
        then some (ok tt, h)
        else poll_at fuel name h
            (build_account_url urls (get b.service_config "url") name password "admin" "")

    abbrev pub waited_for : Session → Run History Done → Run Session Done
    waited_for s none = none
    waited_for s (some (r, h)) = some (r, record s { history = h })

    abbrev pub user_created :
        ℕ → String → String → Result Done × History → Session → Run Session Done
    user_created fuel name password (err e, h) s =
        some (err (GoError.wrap ("error creating atlas user " ++ name) e), record s { history = h })
    user_created fuel name password (ok _, h) s =
        let reported = (report user name (record s { history = h })).1 in
        waited_for reported (wait_for_atlas_user fuel name password h)

    abbrev pub with_roles :
        ℕ → String → String → Result (List AtlasRole) → Session → Run Session Done
    with_roles fuel name password (err e) s = some (err e, s)
    with_roles fuel name password (ok roles) s =
        user_created fuel name password
          (create_database_user cluster (get b.service_config "project_id")
            (new_atlas_database_user b name password roles) s.history)
          s

    unfoldable pub generate_atlas_account :
        Sdk → ℕ → String → String → String → Bool → Session → Run Session Done
    unfolding wait_for_atlas_user create_database_user new_atlas_database_user build_atlas_roles
        atlas_base_roles
    generate_atlas_account sdk fuel name password database is_derived s =
        with_roles fuel name password
          (if is_derived then build_atlas_roles sdk database [] else ok (atlas_base_roles database))
          s
