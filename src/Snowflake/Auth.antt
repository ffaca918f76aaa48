-- ===== src/Snowflake/Auth.antt =====
-- snowflakeAuthConfig and parseSnowflakePrivateKey of snowflake/snowflake_auth.go.
pub mod Complete
use bindings.Exec.{◌>>-◌, message, err, ok, Result}
use bindings.Common.{
  ◌||◌, ◌==◌, not, ℕ, if◌then◌else◌, Option, get, Bool, String, GoMap, some, none,
}
use bindings.GoText.{GoText}

-- sf.AuthType, as far as it is set
pub data AuthType : Type 0 where
  snowflake jwt oauth pat client_credentials workload_identity : AuthType

-- sf.Config, as far as it is set; `Key` is rsa.PrivateKey.
pub record Config (Key : Type 0) : Type 0 where
  pub account : String
  pub user : String
  pub database : String
  pub schema : String
  pub warehouse : String
  pub role : String
  pub authenticator : AuthType
  pub password : String
  pub private_key : Option Key
  pub token : String
  pub oauth_client_id : String
  pub oauth_client_secret : String
  pub oauth_token_request_url : String
  pub oauth_scope : String
  pub workload_identity_provider : String
  pub workload_identity_entra_resource : String

-- pem.Block
pub record PemBlock : Type 0 where
  pub block_type : String
  pub bytes : String

-- The functions of encoding/pem, crypto/x509, crypto/rsa, encoding/base64 and of the driver. A
-- PKCS#8 key that is no RSA key is `none`.
pub record KeyLib (Key : Type 0) : Type 0 where
  pub pem_decode : String → Option PemBlock
  pub parse_pkcs8 : String → Result (Option Key)
  pub parse_pkcs1 : String → Result Key
  pub generate_key : ℕ → Result Key
  pub marshal_public_key : Key → Result String
  pub encode_base64 : String → String
  pub encode_private_key : Key → String
  pub dsn : Config Key → Result String

-- A config with the fields that every method has.
abbrev pub base_config : {Key : Type 0} → GoMap → AuthType → Config Key
base_config c authenticator = record {
  account = get c "account";
  user = get c "user";
  database = get c "database";
  schema = "";
  warehouse = get c "warehouse";
  role = get c "role";
  authenticator = authenticator;
  password = "";
  private_key = none;
  token = "";
  oauth_client_id = "";
  oauth_client_secret = "";
  oauth_token_request_url = "";
  oauth_scope = "";
  workload_identity_provider = "";
  workload_identity_entra_resource = "";
}

abbrev pub has : GoMap → String → Bool
has c key = not (get c key == "")

-- The method that the config keys stand for, where no authenticator is given.
unfoldable pub infer_authenticator : GoMap → Result String
infer_authenticator c =
    if has c "private_key"
    then ok "snowflake_jwt"
    else if has c "oauth_client_id" || (has c "oauth_client_secret" || has c "oauth_token_url")
    then ok "oauth_client_credentials"
    else if has c "token"
    then ok "oauth"
    else if has c "workload_identity_provider"
    then ok "workload_identity"
    else if has c "password"
    then ok "snowflake"
    else err (
        message
          "snowflake auth config is required: set private_key (key-pair), oauth_client_id/oauth_client_secret/oauth_token_url (client credentials), token (OAuth/PAT), workload_identity_provider (WIF) or password")

module _ {Key : Type 0} (keys : KeyLib Key) (text : GoText) where
  abbrev legacy_key : Result Key → Result Key
  legacy_key (ok key) = ok key
  legacy_key (err _) =
      err (message "private_key could not be parsed as a PKCS#8 or PKCS#1 RSA private key")

  abbrev modern_key : Result (Option Key) → Result Key → Result Key
  modern_key (ok (some key)) legacy = ok key
  modern_key (ok none) legacy = err (message "private_key is not an RSA key")
  modern_key (err _) legacy = legacy_key legacy

  abbrev key_of_block : Option PemBlock → Result Key
  key_of_block none = err (message "private_key is not valid PEM data")
  key_of_block (some block) =
      if block.block_type == "ENCRYPTED PRIVATE KEY"
      then err (
          message
            "private_key is passphrase protected; store the unencrypted PKCS#8 key (openssl pkcs8 -topk8 -nocrypt) in a secret provider instead")
      else modern_key (keys.parse_pkcs8 block.bytes) (keys.parse_pkcs1 block.bytes)

  unfoldable pub parse_private_key : String → Result Key
  parse_private_key pem_value = key_of_block (keys.pem_decode (text.trim_space pem_value))

  -- `if serviceConfig[key] == "" { return … }`
  abbrev pub require : GoMap → String → String → Result (Config Key) → Result (Config Key)
  require c key text rest = if has c key then rest else err (message text)

  -- The branches of `switch authenticator`.
  unfoldable pub config_for : GoMap → String → Result (Config Key)
  unfolding parse_private_key
  config_for c authenticator =
      if authenticator == "snowflake"
      then require c "password" "password is required for password auth"
          (ok (record (base_config c AuthType.snowflake) { password = get c "password" }))
      else if authenticator == "snowflake_jwt"
      then (parse_private_key (get c "private_key") >>- λ key.
          ok (record (base_config c AuthType.jwt) { private_key = some key }))
      else if authenticator == "oauth"
      then require c "token" "token is required for oauth auth"
          (ok (record (base_config c AuthType.oauth) { token = get c "token" }))
      else if authenticator == "programmatic_access_token" || authenticator == "pat"
      then require c "token" "token is required for programmatic access token auth"
          (ok (record (base_config c AuthType.pat) { token = get c "token" }))
      else if authenticator == "oauth_client_credentials"
      then require c "oauth_client_id"
          "oauth_client_id is required for oauth client credentials auth"
          (require c "oauth_client_secret"
            "oauth_client_secret is required for oauth client credentials auth"
            (require c "oauth_token_url"
              "oauth_token_url is required for oauth client credentials auth"
              (ok (record (base_config c AuthType.client_credentials) {
                oauth_client_id = get c "oauth_client_id";
                oauth_client_secret = get c "oauth_client_secret";
                oauth_token_request_url = get c "oauth_token_url";
                oauth_scope = get c "oauth_scope";
              }))))
      else if authenticator == "workload_identity"
      then require c "workload_identity_provider"
          "workload_identity_provider (AWS, GCP, AZURE or OIDC) is required for workload identity auth"
          (ok (record (base_config c AuthType.workload_identity) {
            workload_identity_provider = text.to_upper (get c "workload_identity_provider");
            workload_identity_entra_resource = get c "workload_identity_entra_resource";
          }))
      else err (
          message
            "unsupported authenticator value: supported values are snowflake, snowflake_jwt, oauth, programmatic_access_token, oauth_client_credentials, workload_identity")

  abbrev pub configured : GoMap → String
  configured c = text.to_lower (text.trim_space (get c "authenticator"))

  unfoldable pub auth_config : GoMap → Result (Config Key)
  unfolding infer_authenticator config_for
  auth_config c =
      (if configured c == "" then infer_authenticator c else ok (configured c)) >>- λ authenticator.
      config_for c authenticator
