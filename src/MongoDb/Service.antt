-- ===== src/MongoDb/Service.antt =====
-- initSelfHosted, checkMongoAuthorizationEnabled, checkMongoReachable and CloseService of
-- mongodb/mongodb_binding.go.
pub mod Guarded
use bindings.Common.{
  [], config_keys, get, some, ◌∷◌, if◌then◌else◌, GoMap, Option, String, none, true, false,
}
use bindings.MongoDb.Client.{
  with_disconnect, disconnected, probe_url, History, ping_url, connect_url, ping_mongo_url,
  disconnect_url, Cluster,
}
use bindings.Exec.{
  describe, check, wrap_err, ◌>>◌, lift, GoError, message, ◌>>=◌, pure, err, ok, has_code, Done,
  Exec, Result,
}
use bindings.MongoDb.Accounts.{MongoDb}
use bindings.Url.{UrlLib}
use bindings.Sdk.{Sdk}
use bindings.MongoDb.Urls.{validate_service_url}

-- The connection errors of the check, and what it makes of the answer to its command.
abbrev pub authorization_verdict : Result Done → Result Done
authorization_verdict (ok _) = err (
    message
      "mongodb server does not have authorization enabled (run with --auth); binding isolation would not be enforced")
authorization_verdict (err e) =
    if has_code e 13
    then ok tt
    else err (GoError.wrap "error checking mongodb authorization status" e)

-- A run whose error is inspected rather than returned.
abbrev pub judge : {A B : Type 0} → (Result A → Result B) → Exec History A → Exec History B
judge f m h = let (r, h') = m h in (f r, h')

-- `if err := m; err != nil { adminClient.Disconnect(ctx); return … }`
abbrev pub disconnecting_on_error :
    {A : Type 0} → Cluster → String → Exec History A → Exec History A
disconnecting_on_error cluster url m h =
    let (r, h') = m h in
    elim r [
      | ok a ↦ (ok a, h')
      | err e ↦ (err e, disconnected url (cluster.disconnect h' url) ∷ h')
    ]

module _ (cluster : Cluster) where
  unfoldable pub check_authorization_enabled : UrlLib → String → Exec History Unit
  unfolding connect_url probe_url has_code
  check_authorization_enabled urls admin_url = do
    u ← lift (wrap_err "error parsing mongodb url" (urls.parse admin_url))
    let url = urls.to_string (record u { user = none })
    describe "error connecting to mongodb" (connect_url cluster url)
    with_disconnect cluster url (judge authorization_verdict (probe_url cluster url))

  -- An error that the caller returns as it is, unless it only says that no one is logged in.
  abbrev reachable : Result Done → Result Done
  reachable (ok _) = ok tt
  reachable (err e) = if has_code e 13 then ok tt else err e

  unfoldable pub check_reachable : String → Exec History Unit
  unfolding ping_mongo_url has_code
  check_reachable url = judge reachable (ping_mongo_url cluster url)

  -- `none` is a service that has not been initialized; one of Atlas has no admin client.
  unfoldable pub close_service : Option MongoDb → Exec History Unit
  unfolding disconnect_url
  close_service none = pure tt
  close_service (some b) =
      if b.is_atlas then pure tt else disconnect_url cluster (get b.service_config "url")

  unfoldable pub initialize_self_hosted : Sdk → UrlLib → GoMap → Exec History MongoDb
  unfolding validate_service_url connect_url ping_url check_authorization_enabled
  initialize_self_hosted sdk urls service_config =
      let url = get service_config "url" in
      do
        check (sdk.verify_keys (config_keys service_config) ("url" ∷ []) ("binding_hostname" ∷ []))
        lift (validate_service_url urls url)
        describe "error connecting to mongodb" (connect_url cluster url)
        disconnecting_on_error cluster url
            (describe "error verifying mongodb connection" (ping_url cluster url))
        disconnecting_on_error cluster url (check_authorization_enabled urls url)
        pure (record {
          is_atlas = false;
          service_config = sdk.localhost_config service_config url;
          user_wait_secs = 0;
        })
