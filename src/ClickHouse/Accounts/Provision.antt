-- ===== src/ClickHouse/Accounts/Provision.antt =====
-- GenerateAccount of the ClickHouse provider reports exactly what it created.
use bindings.Common.{
  is_some, inl, inr, ◌⊎◌, refl, ◌≡◌, GoMap, Option, ℕ, String, Bool, true, false, List, [], ◌∷◌,
}
use bindings.Sdk.{artifact, Sdk, role, user, database}
use bindings.Exec.{Result-cases, is_ok, ok, Result}
use bindings.Sql.Plan.Runs.{
  quiet_end, Follows-IsProvisioned, IsProvisioned, Follows, Follows-pure, Follows-step,
  Follows-creating,
}
use bindings.ClickHouse.Password.{generate_password, Random}
use bindings.Sql.Plan.{Session, Step, step, creating}
use bindings.Url.{UrlLib}
use bindings.Sql.{Server}
use bindings.ClickHouse.{ClickHouse}
use bindings.ClickHouse.Accounts.{
  generate_account, account_names, Names, create_role_sql, create_database_sql, grant_database_sql,
  create_user_sql, grant_role_sql, create_objects,
}

module _ (sdk : Sdk) (server : Server) (b : ClickHouse) (n : Names) (password_hash : String) where
  -- A role, for a base binding a database with privileges on it for the role, and a user that has
  -- the role.
  abbrev pub user_plan : List Step
  user_plan =
      creating (create_user_sql sdk b n password_hash) (artifact user n.user_name)
      ∷ step (grant_role_sql sdk b n)
      ∷ []

  abbrev pub account_plan : Bool → List Step
  account_plan true = creating (create_role_sql sdk b n) (artifact role n.role_name) ∷ user_plan
  account_plan false =
      creating (create_role_sql sdk b n) (artifact role n.role_name)
      ∷ creating (create_database_sql sdk b n) (artifact database n.database_name)
      ∷ step (grant_database_sql sdk b n)
      ∷ user_plan

  create_objects-Follows :
      (is_derived : Bool)
      → Follows server
          (account_plan is_derived)
          (create_objects sdk server b is_derived n password_hash)
  unfolding create_objects
  create_objects-Follows true = search (Follows-pure, Follows-step, Follows-creating)
  create_objects-Follows false = search (Follows-pure, Follows-step, Follows-creating) depth 7

module _ (sdk : Sdk) (server : Server) (b : ClickHouse) (urls : UrlLib)
    (sha256_hex : String → String) (random : Random) (k : ℕ) (binding_id : String)
    (derived_from : Option GoMap) (is_staging : Bool) (s : Session) where
  abbrev pub outcome : Result GoMap × Session
  outcome =
      generate_account sdk server b urls sha256_hex random k binding_id derived_from is_staging s

  provisioned :
      (password : String) (n : Names)
      → (generate_password random k).0 ≡ ok password
      → account_names sdk binding_id is_staging derived_from ≡ ok n
      → IsProvisioned
          (account_plan sdk server b n (sha256_hex password) (is_some derived_from))
          s
          outcome
  unfolding generate_account
  provisioned password n drawn named = rw drawn (
      rw named (
        Follows-IsProvisioned server _ _ _ s
          (create_objects-Follows sdk server b n (sha256_hex password) (is_some derived_from))
          (λ _ s'. quiet_end _ _ s')))

  -- A GenerateAccount either fails before it reaches the server, which it then leaves as it was,
  -- or it runs the account's statements in their order up to the first that fails, and reports
  -- exactly the objects whose statement succeeded; without an error all of them succeeded.
  pub generate_account-IsProvisioned :
      ((outcome.1 ≡ s) × (is_ok outcome.0 ≡ false))
      ⊎ ((password : String) × (n : Names) × (account_names sdk binding_id is_staging derived_from
            ≡ ok n)
          × IsProvisioned
              (account_plan sdk server b n (sha256_hex password) (is_some derived_from))
              s
              outcome)
  unfolding generate_account
  generate_account-IsProvisioned = elim (Result-cases (generate_password random k).0) [
    | inr (_, failed) ↦ inl (rw failed (refl, refl))
    | inl (password, drawn) ↦
        elim (Result-cases (account_names sdk binding_id is_staging derived_from)) [
          | inr (_, failed) ↦ inl (rw drawn (rw failed (refl, refl)))
          | inl (n, named) ↦ inr (password, n, named, provisioned password n drawn named)
        ]
  ]
