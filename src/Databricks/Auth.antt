-- ===== src/Databricks/Auth.antt =====
-- databricks/databricks_auth.go: the authentication config, and what is read off the host and path.
use bindings.Common.{
  none, ◌++◌, true, contains, ◌&&◌, ◌||◌, trim_prefix, after_last, not, ◌==◌, some, if◌then◌else◌,
  trim_last, Bool, get, GoMap, String, Option,
}
use bindings.Exec.{message, err, ◌>>-◌, ok, Result}
use bindings.Url.{Url, UrlLib}
use bindings.GoText.{GoText}

-- config.Config of the Databricks SDK, as far as it is set
pub record Config : Type 0 where
  pub host : String
  pub token : String
  pub client_id : String
  pub client_secret : String
  pub azure_client_id : String
  pub azure_client_secret : String
  pub azure_tenant_id : String
  pub azure_use_msi : Bool
  pub google_service_account : String
  pub google_credentials : String
  pub auth_type : String

abbrev pub is_set : String → Bool
is_set s = not (s == "")

module _ (text : GoText) where
  unfoldable pub host_url : String → String
  host_url host =
      let trimmed = trim_last 47 (text.trim_space host) in
      if trimmed == "" || contains trimmed "://" then trimmed else "https://" ++ trimmed

  abbrev host_of : String → Result Url → String
  host_of url (ok parsed) = if is_set parsed.host then parsed.host else trim_prefix url "https://"
  host_of url (err _) = trim_prefix url "https://"

  unfoldable pub hostname : UrlLib → String → String
  unfolding host_url
  hostname urls host = host_of (host_url host) (urls.parse (host_url host))

  -- The config before the authentication type is settled.
  unfoldable pub config_of : GoMap → Config
  unfolding host_url
  config_of c = record {
    host = host_url (get c "host");
    token = get c "token";
    client_id = get c "client_id";
    client_secret = get c "client_secret";
    azure_client_id = get c "azure_client_id";
    azure_client_secret = get c "azure_client_secret";
    azure_tenant_id = get c "azure_tenant_id";
    azure_use_msi = get c "azure_use_msi" == "true";
    google_service_account = get c "google_service_account";
    google_credentials = get c "google_credentials";
    auth_type = "";
  }

unfoldable pub infer_auth_type : Config → Result String
infer_auth_type cfg =
    if is_set cfg.token
    then ok "pat"
    else if is_set cfg.client_id || is_set cfg.client_secret
    then ok "oauth-m2m"
    else if is_set cfg.azure_client_id || is_set cfg.azure_client_secret
    then ok "azure-client-secret"
    else if cfg.azure_use_msi
    then ok "azure-msi"
    else if is_set cfg.google_service_account
    then ok "google-id"
    else if is_set cfg.google_credentials
    then ok "google-credentials"
    else err (
        message
          "databricks auth config is required: set token (PAT), client_id/client_secret (service principal OAuth), azure_client_id/azure_client_secret/azure_tenant_id (Entra ID), azure_use_msi (managed identity), google_service_account or google_credentials")

-- A check of `switch authType`, and the assignment after it.
abbrev pub settle : Config → String → Bool → String → Result Config
settle cfg auth_type complete text =
    if complete then ok (record cfg { auth_type = auth_type }) else err (message text)

-- The branches of `switch authType`; an unknown type is passed on.
unfoldable pub config_for : Config → String → Result Config
config_for cfg auth_type =
    if auth_type == "pat"
    then settle cfg auth_type (is_set cfg.token) "token is required for pat auth"
    else if auth_type == "oauth-m2m"
    then settle cfg auth_type (is_set cfg.client_id && is_set cfg.client_secret)
        "client_id and client_secret are required for oauth-m2m auth"
    else if auth_type == "azure-client-secret"
    then settle cfg auth_type
        (is_set cfg.azure_client_id
          && (is_set cfg.azure_client_secret && is_set cfg.azure_tenant_id))
        "azure_client_id, azure_client_secret and azure_tenant_id are required for azure-client-secret auth"
    else if auth_type == "azure-msi"
    then ok (record cfg { azure_use_msi = true; auth_type = auth_type })
    else if auth_type == "google-id"
    then settle cfg auth_type (is_set cfg.google_service_account)
        "google_service_account is required for google-id auth"
    else if auth_type == "google-credentials"
    then settle cfg auth_type (is_set cfg.google_credentials)
        "google_credentials is required for google-credentials auth"
    else ok (record cfg { auth_type = auth_type })

module _ (text : GoText) where
  abbrev pub configured : GoMap → String
  configured c = text.to_lower (text.trim_space (get c "auth_type"))

  unfoldable pub auth_config : GoMap → Result Config
  unfolding infer_auth_type config_for config_of
  auth_config c =
      (if configured c == "" then infer_auth_type (config_of text c) else ok (configured c))
      >>- config_for (config_of text c)

abbrev id_of : Option String → String
id_of none = ""
id_of (some id) = if id == "" || contains id "/" then "" else id

unfoldable pub warehouse_id : GoMap → String
warehouse_id c =
    if is_set (get c "warehouse_id")
    then get c "warehouse_id"
    else id_of (after_last (trim_last 47 (get c "http_path")) "/warehouses/")
