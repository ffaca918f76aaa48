-- ===== src/Snowflake/Auth/Complete.antt =====
-- A config that snowflakeAuthConfig returns has the credentials of its method.
use bindings.Common.{
  ◌||◌, some, not, refl, if◌then◌else◌, get, true, Bool, false, GoMap, ◌==◌, ◌≡◌, String,
}
use bindings.Snowflake.Auth.{
  configured, base_config, auth_config, parse_private_key, infer_authenticator, config_for,
  AuthType, Config, require, KeyLib,
}
use bindings.Exec.{◌>>-◌, >>--eq-ok, err, ok, Result}
use mathlib.Core.Path.{subst}
use bindings.GoText.{GoText}

abbrev Given : String → String → Type 0
Given value setting = (value ≡ setting) × ((setting == "") ≡ false)

not-true : (b : Bool) → not b ≡ true → b ≡ false
not-true false e = refl
not-true true e = cc

module _ {Key : Type 0} (keys : KeyLib Key) (text : GoText) (c : GoMap) where
  -- What the method of a config needs is there, and is what the service config says.
  abbrev pub HasCredentials : Config Key → Type 0
  HasCredentials cfg = elim cfg.authenticator [
    | AuthType.snowflake ↦ Given cfg.password (get c "password")
    | AuthType.jwt ↦
        (key : Key) × (cfg.private_key ≡ some key)
        × (parse_private_key keys text (get c "private_key") ≡ ok key)
    | AuthType.oauth ↦ Given cfg.token (get c "token")
    | AuthType.pat ↦ Given cfg.token (get c "token")
    | AuthType.client_credentials ↦
        Given cfg.oauth_client_id (get c "oauth_client_id")
        × Given cfg.oauth_client_secret (get c "oauth_client_secret")
        × Given cfg.oauth_token_request_url (get c "oauth_token_url")
    | AuthType.workload_identity ↦
        ((get c "workload_identity_provider" == "") ≡ false)
        × (cfg.workload_identity_provider ≡ text.to_upper (get c "workload_identity_provider"))
  ]

  -- The fields that the service config sets for every method.
  abbrev pub IsFor : Config Key → Type 0
  IsFor cfg =
      (cfg.account ≡ get c "account")
      × (cfg.user ≡ get c "user")
      × (cfg.database ≡ get c "database")
      × (cfg.warehouse ≡ get c "warehouse")
      × (cfg.role ≡ get c "role")

  abbrev Complete : Result (Config Key) → Type 0
  Complete (ok cfg) = IsFor cfg × HasCredentials cfg
  Complete (err _) = Unit

  Complete-if :
      (test : Bool) (r1 r2 : Result (Config Key))
      → (test ≡ true → Complete r1)
      → (test ≡ false → Complete r2)
      → Complete (if test then r1 else r2)
  Complete-if true r1 r2 a d = a refl
  Complete-if false r1 r2 a d = d refl

  Complete-require :
      (key error_text : String) (rest : Result (Config Key))
      → ((get c key == "") ≡ false → Complete rest)
      → Complete (require keys text c key error_text rest)
  Complete-require key error_text rest next =
      Complete-if (not (get c key == "")) rest _ (λ e. next (not-true _ e)) (λ _. tt)

  jwt-Complete :
      (parsed : Result Key)
      → parse_private_key keys text (get c "private_key") ≡ parsed
      → Complete
          (parsed >>- λ key. ok (record (base_config c AuthType.jwt) { private_key = some key }))
  jwt-Complete (ok key) e = ((refl, refl, refl, refl, refl), (key, refl, e))
  jwt-Complete (err _) e = tt

  config_for-Complete : (authenticator : String) → Complete (config_for keys text c authenticator)
  unfolding config_for
  config_for-Complete authenticator =
      Complete-if (authenticator == "snowflake") _ _
        (λ _. Complete-require _ _ _ (λ set. ((refl, refl, refl, refl, refl), (refl, set))))
        (λ _.
          Complete-if (authenticator == "snowflake_jwt") _ _ (λ _. jwt-Complete _ refl)
            (λ _.
              Complete-if (authenticator == "oauth") _ _
                (λ _. Complete-require _ _ _ (λ set. ((refl, refl, refl, refl, refl), (refl, set))))
                (λ _.
                  Complete-if
                    (authenticator == "programmatic_access_token" || authenticator == "pat") _ _
                    (λ _.
                      Complete-require _ _ _ (λ set. ((refl, refl, refl, refl, refl), (refl, set))))
                    (λ _.
                      Complete-if (authenticator == "oauth_client_credentials") _ _
                        (λ _. Complete-require _ _ _ (λ id. Complete-require _ _ _ (λ secret.
                          Complete-require _ _ _ (λ url. (
                            (refl, refl, refl, refl, refl),
                            ((refl, id), (refl, secret), (refl, url)),
                          )))))
                        (λ _.
                          Complete-if (authenticator == "workload_identity") _ _
                            (λ _.
                              Complete-require _ _ _
                                (λ set. ((refl, refl, refl, refl, refl), (set, refl))))
                            (λ _. tt))))))

  -- A config that snowflakeAuthConfig returns, for the authenticator given or for the one that it
  -- infers, is for the account, user, database, warehouse and role of the service config, and has
  -- what its method needs: a password, a token, a parsed private key, the three texts of the
  -- client credentials or a workload identity provider, each as the service config gives it and
  -- none of these texts empty.
  pub auth_config-HasCredentials :
      (cfg : Config Key) → auth_config keys text c ≡ ok cfg → IsFor cfg × HasCredentials cfg
  unfolding auth_config
  auth_config-HasCredentials cfg e =
      let (authenticator, _, made) =
        >>--eq-ok
          (if configured keys text c == ""
            then infer_authenticator c
            else ok (configured keys text c))
          (config_for keys text c) e in
      subst Complete made (config_for-Complete authenticator)
