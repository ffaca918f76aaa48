-- ===== src/MongoDb/Service/Guarded.antt =====
-- initSelfHosted leaks no client, and accepts only a server that enforces authorization.
use bindings.Common.{
  ◌&&◌, eq_refl, ◌==◌, String, get, arith, GoMap, ◌-◌, [], ◌+◌, suc, ◌≡◌, ◌∷◌, Bool, ℕ, none, some,
  true, false,
}
use bindings.Url.{Url, UrlLib}
use bindings.MongoDb.Client.{
  Cluster, disconnected, probe_url, probed, connected, ping_url, connect_url, History,
}
use bindings.Sdk.{Sdk}
use bindings.Exec.{err, has_code, ok, Result}
use bindings.MongoDb.Urls.{validate_service_url}
use bindings.MongoDb.Service.{check_authorization_enabled, initialize_self_hosted}

-- The clients connected with success, less those disconnected.
abbrev pub live : History → ℕ
live [] = 0
live (connected url none ∷ h) = suc (live h)
live (disconnected url answer ∷ h) = live h - 1
live (_ ∷ h) = live h

-- The newest usersInfo was sent at a URL, and was refused as unauthorized.
abbrev pub is_refused : String → History → Bool
is_refused url [] = false
is_refused url (probed at (some e) ∷ h) = at == url && has_code e 13
is_refused url (probed at none ∷ h) = false
is_refused url (_ ∷ h) = is_refused url h

-- The service's URL without its user, at which a command has no credentials.
abbrev pub is_guarded : UrlLib → Result Url → History → Bool
is_guarded urls (err _) h = false
is_guarded urls (ok u) h = is_refused (urls.to_string (record u { user = none })) h

abbrev pub Guards : {A : Type 0} → UrlLib → String → History → Result A × History → Type 0
Guards urls url h (ok _, h') = (live h' ≡ live h + 1) × (is_guarded urls (urls.parse url) h' ≡ true)
Guards urls url h (err _, h') = live h' ≡ live h

-- A successful initSelfHosted keeps one client connected, and the last usersInfo was sent at the
-- service's URL without its user, and refused as unauthorized; a failed one leaves as many clients connected as before, whatever the
-- step that failed.
pub initialize_self_hosted-Guards :
    (sdk : Sdk) (cluster : Cluster) (urls : UrlLib) (service_config : GoMap) (h : History)
    → Guards urls
        (get service_config "url")
        h
        (initialize_self_hosted cluster sdk urls service_config h)
unfolding initialize_self_hosted check_authorization_enabled connect_url ping_url probe_url
    validate_service_url has_code
initialize_self_hosted-Guards sdk cluster urls service_config h = grind (arith, eq_refl)
