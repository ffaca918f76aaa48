-- ===== src/SqlServer/Accounts/Provision.antt =====
-- GenerateAccount of the SQL Server provider reports exactly what it created.
use bindings.Sdk.{artifact, Sdk, user, login, schema}
use bindings.Common.{
  is_some, refl, ◌⊎◌, [], ◌≡◌, ◌∷◌, GoMap, Option, List, ℕ, Bool, String, inl, inr, true, false,
}
use bindings.Sql.Plan.Runs.{
  quiet_end, Follows-IsProvisioned, IsProvisioned, Follows, Follows-pure, Follows-step,
  Follows-creating,
}
use bindings.Exec.{Result-cases, is_ok, ok, Result}
use bindings.SqlServer.Accounts.{
  grant_create_sql, create_schema_sql, account_names, create_user_sql, generate_account,
  create_login_sql, create_objects, Names,
}
use bindings.Url.{UrlLib}
use bindings.SqlServer.{SqlServer}
use bindings.Sql.Plan.{Session, Step, step, creating}
use bindings.Sql.{Server}

module _ (sdk : Sdk) (server : Server) (b : SqlServer) (n : Names) (password : String) where
  -- A login and a user, and for a base binding a schema that the user owns and the privileges to
  -- create in it.
  abbrev pub account_plan : Bool → List Step
  account_plan true =
      creating (create_login_sql sdk b n password) (artifact login n.login_name)
      ∷ creating (create_user_sql sdk b n) (artifact user n.user_name)
      ∷ []
  account_plan false =
      creating (create_login_sql sdk b n password) (artifact login n.login_name)
      ∷ creating (create_user_sql sdk b n) (artifact user n.user_name)
      ∷ creating (create_schema_sql sdk b n) (artifact schema n.schema_name)
      ∷ step (grant_create_sql sdk b n)
      ∷ []

  create_objects-Follows :
      (is_derived : Bool)
      → Follows server (account_plan is_derived) (create_objects sdk server b is_derived n password)
  unfolding create_objects
  create_objects-Follows true = search (Follows-pure, Follows-creating)
  create_objects-Follows false = search (Follows-pure, Follows-step, Follows-creating) depth 7

module _ (sdk : Sdk) (server : Server) (b : SqlServer) (urls : UrlLib) (to_lower : String → String)
    (random_hex : ℕ → Result String) (binding_id : String) (derived_from : Option GoMap)
    (is_staging : Bool) (s : Session) where
  abbrev pub outcome : Result GoMap × Session
  outcome =
      generate_account sdk server b urls to_lower random_hex binding_id derived_from is_staging s

  provisioned :
      (password : String) (n : Names)
      → random_hex 32 ≡ ok password
      → account_names binding_id is_staging derived_from ≡ ok n
      → IsProvisioned (account_plan sdk server b n password (is_some derived_from)) s outcome
  unfolding generate_account
  provisioned password n drawn named = rw drawn (
      rw named (
        Follows-IsProvisioned server _ _ _ s
          (create_objects-Follows sdk server b n password (is_some derived_from))
          (λ _ s'. quiet_end _ _ s')))

  -- A GenerateAccount of the SQL Server provider either fails before it reaches the server, which
  -- it then leaves as it was, or it runs the account's statements in their order up to the first
  -- that fails, and reports exactly the objects whose statement succeeded; without an error all of
  -- them succeeded.
  pub generate_account-IsProvisioned_of_server :
      ((outcome.1 ≡ s) × (is_ok outcome.0 ≡ false))
      ⊎ ((password : String) × (n : Names) × (account_names binding_id is_staging derived_from
            ≡ ok n)
          × IsProvisioned (account_plan sdk server b n password (is_some derived_from)) s outcome)
  unfolding generate_account
  generate_account-IsProvisioned_of_server = elim (Result-cases (random_hex 32)) [
    | inr (_, failed) ↦ inl (rw failed (refl, refl))
    | inl (password, drawn) ↦
        elim (Result-cases (account_names binding_id is_staging derived_from)) [
          | inr (_, failed) ↦ inl (rw drawn (rw failed (refl, refl)))
          | inl (n, named) ↦ inr (password, n, named, provisioned password n drawn named)
        ]
  ]
