-- ===== src/MongoDb/Users.antt =====
-- newAtlasDatabaseUser, setUserGrants, restoreSelfHostedUser, ApplyGrants and RevokeGrants of
-- mongodb/mongodb_binding.go.
pub mod Roles
pub mod Rollback
pub mod Atlas
use bindings.MongoDb.Accounts.{own_role, MongoDb}
use bindings.MongoDb.Grants.{build_role_privileges, build_atlas_roles, Privilege, AtlasRole}
use bindings.MongoDb.Client.{
  create_user, create_role, update_role, atlas_error_status, AtlasUser, History,
  create_database_user, run_command, count_users, update_database_user_roles, Cluster,
}
use bindings.Common.{
  ltb, ◌&&◌, ◌||◌, ◌=?◌, ◌==◌, ◌++◌, not, [], if◌then◌else◌, ◌∷◌, get, GoMap, List, Bool, String,
}
use bindings.Exec.{
  lift, ◌>>=◌, message, fail, err, describe, pure, ◌>>◌, ok, has_code, Exec, GoError,
}
use mathlib.Core.Bool.{true, false}
use bindings.Sdk.{BindingMetadata, Grant, GrantEngine, Sdk, read, full}

-- The cluster scope is left out when no cluster is configured.
unfoldable pub new_atlas_database_user : MongoDb → String → String → List AtlasRole → AtlasUser
new_atlas_database_user b name password roles =
    let cluster_name = get b.service_config "cluster_name" in
    record {
      database_name = "admin";
      user_name = name;
      password = password;
      description = "openrun service binding account";
      roles = roles;
      scopes =
          if cluster_name == ""
          then []
          else record { name = cluster_name; scope_type = "CLUSTER" } ∷ [];
    }

-- A second attempt when the first failed with an error that it can mend.
abbrev pub or_else : (GoError → Bool) → Exec History Unit → Exec History Unit → Exec History Unit
or_else is_mendable m again h =
    let (r, h') = m h in
    elim r [
      | ok _ ↦ (ok tt, h')
      | err e ↦ elim (is_mendable e) [ true ↦ again h' | false ↦ (err e, h') ]
    ]

module _ (sdk : Sdk) (cluster : Cluster) (b : MongoDb) where
  -- The two halves of setUserGrants: the complete permission set in one operation.
  unfoldable pub set_atlas_roles : String → String → List AtlasRole → Exec History Unit
  unfolding update_database_user_roles create_database_user atlas_error_status
      new_atlas_database_user
  set_atlas_roles name password roles =
      let project_id = get b.service_config "project_id" in
      describe ("error applying grants to atlas user " ++ name) (
        or_else (λ e. (atlas_error_status e =? 404) && not (password == ""))
          (update_database_user_roles cluster project_id name roles)
          (create_database_user cluster project_id (new_atlas_database_user b name password roles)))

  unfoldable pub set_role_privileges : String → List Privilege → Exec History Unit
  unfolding run_command has_code
  set_role_privileges name privileges = describe ("error applying grants to role " ++ name) (
      or_else (λ e. has_code e 31) (run_command cluster (update_role name privileges))
        (run_command cluster (create_role name privileges)))

  unfoldable pub set_user_grants : GoMap → List Grant → Exec History Unit
  unfolding set_atlas_roles set_role_privileges
  set_user_grants account grants =
      let name = get account "username" in
      let database = get account "database" in
      if name == "" || database == ""
      then fail (message "binding account is missing the username or database field")
      else if b.is_atlas
      then lift (build_atlas_roles sdk database grants)
        >>= set_atlas_roles name (get account "password")
      else lift (build_role_privileges sdk database grants) >>= λ privileges.
          set_role_privileges name privileges

  unfoldable pub restore_user : GoMap → Exec History Unit
  unfolding count_users run_command
  restore_user account =
      let name = get account "username" in
      let password = get account "password" in
      if name == "" || password == ""
      then fail (message "binding account is missing the username or password field")
      else do
        users ← describe ("error checking user " ++ name) (count_users cluster name)
        if ltb 0 users
            then pure tt
            else describe ("error recreating user " ++ name)
                (run_command cluster (create_user name password (own_role name)))

  -- An error of `m` is returned, after the cleanup, whose own error is joined to it.
  abbrev pub cleaning_up : String → Exec History Unit → Exec History Unit → Exec History Unit
  cleaning_up text m cleanup h =
      let (r, h') = m h in
      elim r [
        | ok _ ↦ (ok tt, h')
        | err e ↦
            let (cleaned, h'') = cleanup h' in
            elim cleaned [
              | ok _ ↦ (err e, h'')
              | err failed ↦ (err (GoError.joined e (GoError.wrap text failed)), h'')
            ]
      ]

  -- The callback that ApplyGrants hands to ApplyGrantsRebuild.
  unfoldable pub rebuild : GoMap → List Grant → Bool → List Grant → Exec History Unit
  unfolding set_user_grants restore_user
  rebuild account grants_before reapply_all grants_applied = do
    set_user_grants account grants_applied
    if not b.is_atlas && reapply_all
        then cleaning_up "error rolling back role privileges" (restore_user account)
            (set_user_grants account grants_before)
        else pure tt

  module _ (engine : GrantEngine History) where
    unfoldable pub apply_grants :
        GoMap → BindingMetadata → Bool → Exec History engine.GrantApplyResult
    unfolding rebuild
    apply_grants account metadata reapply_all =
        engine.apply_grants_rebuild metadata (read ∷ full ∷ [])
          λ grants_applied. rebuild account metadata.grants_applied reapply_all grants_applied

  unfoldable pub revoke_grants : GoMap → List Grant → List Grant → Exec History Unit
  unfolding set_user_grants
  revoke_grants account [] regrants = pure tt
  revoke_grants account (_ ∷ _) regrants = set_user_grants account regrants
