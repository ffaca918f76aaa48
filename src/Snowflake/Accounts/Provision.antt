-- ===== src/Snowflake/Accounts/Provision.antt =====
-- GenerateAccount of the Snowflake provider reports exactly what it created.
use bindings.Common.{
  refl, inl, inr, is_some, [], ◌∷◌, ◌⊎◌, false, ◌≡◌, true, GoMap, List, Bool, Option, String,
}
use bindings.Snowflake.Accounts.{
  grant_schema_sql, create_schema_sql, grant_warehouse_sql, grant_role_sql, grant_database_sql,
  generate_key_pair, account_names, KeyPair, generate_account, create_user_sql, create_role_sql,
  create_objects, create_account_user, Names,
}
use bindings.Sql.Plan.Runs.{
  quiet_end, Follows-IsProvisioned, IsProvisioned, Follows-creating, Follows-step, Follows-pure,
  Follows,
}
use bindings.Sdk.{schema, role, user, artifact, Sdk}
use bindings.Exec.{Result-cases, ok, is_ok, Result}
use bindings.Sql.Plan.{step, Session, creating, Step}
use bindings.Snowflake.Auth.{KeyLib}
use bindings.Snowflake.{Snowflake}
use bindings.Sql.{Server}
use bindings.GoText.{GoText}

module _ (sdk : Sdk) (text : GoText) (server : Server) (b : Snowflake) (n : Names)
    (public_key_b64 : String) where
  -- The user, and the role's grant to it.
  abbrev pub user_plan : List Step
  user_plan =
      creating (create_user_sql sdk text b n public_key_b64) (artifact user n.user_name)
      ∷ step (grant_role_sql sdk text b n)
      ∷ []

  -- A role that may use the database and the warehouse, for a base binding a schema that the role
  -- may create in, and the user.
  abbrev pub account_plan : Bool → List Step
  account_plan true =
      creating (create_role_sql sdk text b n) (artifact role n.role_name)
      ∷ step (grant_database_sql sdk text b n)
      ∷ step (grant_warehouse_sql sdk text b n)
      ∷ user_plan
  account_plan false =
      creating (create_role_sql sdk text b n) (artifact role n.role_name)
      ∷ step (grant_database_sql sdk text b n)
      ∷ step (grant_warehouse_sql sdk text b n)
      ∷ creating (create_schema_sql sdk text b n) (artifact schema n.schema_name)
      ∷ step (grant_schema_sql sdk text b n)
      ∷ user_plan

  create_account_user-Follows :
      Follows server user_plan (create_account_user sdk text server b n public_key_b64)
  unfolding create_account_user
  create_account_user-Follows = search (Follows-pure, Follows-step, Follows-creating) depth 7

  create_objects-Follows :
      (is_derived : Bool)
      → Follows server
          (account_plan is_derived)
          (create_objects sdk text server b is_derived n public_key_b64)
  unfolding create_objects
  create_objects-Follows true =
      search (create_account_user-Follows, Follows-step, Follows-creating) depth 9
  create_objects-Follows false =
      search (create_account_user-Follows, Follows-step, Follows-creating) depth 9

module _ (sdk : Sdk) (text : GoText) (server : Server) (b : Snowflake) {Key : Type 0}
    (keys : KeyLib Key) (binding_id : String) (derived_from : Option GoMap) (is_staging : Bool)
    (s : Session) where
  abbrev pub outcome : Result GoMap × Session
  outcome = generate_account sdk text server b keys binding_id derived_from is_staging s

  provisioned :
      (n : Names) (pair : KeyPair Key)
      → account_names sdk binding_id is_staging derived_from ≡ ok n
      → generate_key_pair keys ≡ ok pair
      → IsProvisioned
          (account_plan sdk text server b n pair.public_key_b64 (is_some derived_from))
          s
          outcome
  unfolding generate_account
  provisioned n pair named drawn = rw named (
      rw drawn (
        Follows-IsProvisioned server _ _ _ s
          (create_objects-Follows sdk text server b n pair.public_key_b64 (is_some derived_from))
          (λ _ s'. quiet_end _ _ s')))

  -- A GenerateAccount of the Snowflake provider either fails before it reaches the server, which
  -- it then leaves as it was, or it runs the account's statements in their order up to the first
  -- that fails, and reports exactly the objects whose statement succeeded; without an error all of
  -- them succeeded.
  pub generate_account-IsProvisioned_of_snowflake :
      ((outcome.1 ≡ s) × (is_ok outcome.0 ≡ false))
      ⊎ ((n : Names) × (pair : KeyPair Key) × (account_names sdk binding_id is_staging derived_from
            ≡ ok n)
          × (generate_key_pair keys ≡ ok pair)
          × IsProvisioned
              (account_plan sdk text server b n pair.public_key_b64 (is_some derived_from))
              s
              outcome)
  unfolding generate_account
  generate_account-IsProvisioned_of_snowflake =
      elim (Result-cases (account_names sdk binding_id is_staging derived_from)) [
        | inr (_, failed) ↦ inl (rw failed (refl, refl))
        | inl (n, named) ↦ elim (Result-cases (generate_key_pair keys)) [
          | inr (_, failed) ↦ inl (rw named (rw failed (refl, refl)))
          | inl (pair, drawn) ↦ inr (n, pair, named, drawn, provisioned n pair named drawn)
        ]
      ]
