-- ===== src/Databricks/Accounts/Credential.antt =====
-- createAccountCredential of the Databricks provider follows the configured credential type.
use bindings.Exec.{Exec, ◌>>=◌, pure, wrap_err, describe, err, continue, GoError, ok, Result}
use bindings.Common.{
  refl, inr, inl, if-elim, ◌∷◌, String, ◌⊎◌, ◌==◌, List, arith, true, false, ◌≡◌, ◌||◌, Bool,
}
use bindings.Databricks.Workspace.{
  token_created, secret_created, World, Call, create_secret, create_obo_token, Principal, Workspace,
  IntLib,
}
use bindings.Databricks.Accounts.{
  token_lifetime, after_secret, create_token, create_account_credential, credential_type,
}
use bindings.Sql.Plan.{Session}
use bindings.Databricks.{Databricks}
use bindings.GoText.{GoText}
use bindings.Sdk.{Sdk}
use mathlib.Core.Path.{subst}

or_second : (a b : Bool) → (a || b) ≡ true → a ≡ false → b ≡ true
or_second a b = ground arith

or_left : (a b : Bool) → (a || b) ≡ false → a ≡ false
or_left a b = ground arith

or_right : (a b : Bool) → (a || b) ≡ false → b ≡ false
or_right a b = ground arith

module _ {Int : Type 0} (sdk : Sdk) (text : GoText) (ints : IntLib Int) (ws : Workspace Int)
    (b : Databricks) (sp : Principal) where
  abbrev is_oauth : Bool
  is_oauth = credential_type sdk text ints ws b == "oauth"

  abbrev is_auto : Bool
  is_auto = credential_type sdk text ints ws b == "auto"

  -- What was called before a token: nothing, or for `auto` a secret that was refused.
  abbrev pub FallsBack : List (Call Int) → List (Call Int) → Type 0
  FallsBack before earlier =
      ((is_auto ≡ false) × (earlier ≡ before))
      ⊎ ((is_auto ≡ true)
          × (refused : GoError) × (earlier ≡ secret_created sp.id (err refused) ∷ before))

  -- How a credential was issued, from the calls before and after.
  abbrev pub IsIssued : List (Call Int) → String × String → List (Call Int) → Type 0
  IsIssued before (auth_type, credential) calls =
      ((auth_type ≡ "oauth-m2m")
        × ((is_oauth || is_auto) ≡ true)
        × (calls ≡ secret_created sp.id (ok credential) ∷ before))
      ⊎ ((auth_type ≡ "pat")
          × (is_oauth ≡ false)
          × (seconds : Int) × (token_lifetime sdk text ints ws b ≡ ok seconds)
          × (earlier : List (Call Int)) × FallsBack before earlier
          × (calls
              ≡ token_created
                  (record { application_id = sp.application_id; lifetime_seconds = seconds })
                  (ok credential)
                ∷ earlier))

  abbrev Issued : List (Call Int) → Result (String × String) × World Int → Type 0
  Issued before (ok c, w') = IsIssued before c w'.calls
  Issued before (err _, w') = Unit

  answered-Issued :
      (before earlier : List (Call Int)) (s : Session) (error_text : String) (seconds : Int)
      (answer : Result String)
      → is_oauth ≡ false
      → FallsBack before earlier
      → token_lifetime sdk text ints ws b ≡ ok seconds
      → Issued before (
          continue
            (wrap_err error_text answer)
            (λ token. pure ("pat", token))
            (record {
              calls =
                  token_created
                    (record { application_id = sp.application_id; lifetime_seconds = seconds })
                    answer
                  ∷ earlier;
              session = s;
            }))
  answered-Issued before earlier s error_text seconds (ok token) other falls lifetime =
      inr (refl, other, seconds, lifetime, earlier, falls, refl)
  answered-Issued before earlier s error_text seconds (err _) other falls lifetime = tt

  lifetime-Issued :
      (before earlier : List (Call Int)) (s : Session) (r : Result Int)
      → is_oauth ≡ false
      → FallsBack before earlier
      → token_lifetime sdk text ints ws b ≡ r
      → Issued before (
          continue r
            (λ seconds.
              describe "error creating on-behalf-of token" (
                create_obo_token ws
                  (record { application_id = sp.application_id; lifetime_seconds = seconds }))
              >>= λ token. pure ("pat", token))
            (record { calls = earlier; session = s }))
  unfolding create_obo_token
  lifetime-Issued before earlier s (ok seconds) other falls lifetime =
      answered-Issued before earlier s _ seconds
        (ws.create_obo_token earlier
          (record { application_id = sp.application_id; lifetime_seconds = seconds }))
        other falls lifetime
  lifetime-Issued before earlier s (err _) other falls lifetime = tt

  create_token-Issued :
      (before : List (Call Int)) (w : World Int)
      → is_oauth ≡ false
      → FallsBack before w.calls
      → Issued before (create_token sdk text ints ws b sp w)
  unfolding create_token
  create_token-Issued before w other falls =
      lifetime-Issued before w.calls w.session (token_lifetime sdk text ints ws b) other falls refl

  secret-Issued :
      (before : List (Call Int)) (s : Session) (answer : Result String)
      → (is_oauth || is_auto) ≡ true
      → Issued before (
          after_secret sdk text ints ws b sp answer
            (record { calls = secret_created sp.id answer ∷ before; session = s }))
  secret-Issued before s (ok secret) asked = inl (refl, asked, refl)
  secret-Issued before s (err e) asked =
      if-elim
        (λ (m : Exec (World Int) (String × String)).
          Issued before (m (record { calls = secret_created sp.id (err e) ∷ before; session = s })))
        is_oauth _ _ (λ _. tt)
        (λ other.
          create_token-Issued before _ other
            (inr (or_second is_oauth is_auto asked other, e, refl)))

  -- The credential that createAccountCredential returns is either an OAuth secret, with a type that
  -- asks for one, from one accepted call, or a token for the service principal with the configured
  -- lifetime, never with the type `oauth`: for `auto` only after the call for a secret was refused,
  -- and for another type without such a call. Nothing else is called.
  pub create_account_credential-IsIssued :
      (w w' : World Int) (credential : String × String)
      → create_account_credential sdk text ints ws b sp w ≡ (ok credential, w')
      → IsIssued w.calls credential w'.calls
  unfolding create_account_credential create_secret
  create_account_credential-IsIssued w w' credential e = subst (Issued w.calls) e (
      if-elim (Issued w.calls) (is_oauth || is_auto) _ _
        (secret-Issued w.calls w.session (ws.create_secret w.calls sp.id))
        (λ neither.
          create_token-Issued w.calls w (or_left is_oauth is_auto neither)
            (inl (or_right is_oauth is_auto neither, refl))))
