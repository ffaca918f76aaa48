-- ===== src/MongoDb/Accounts.antt =====
-- mongoAccountNames, GenerateAccount's self-hosted half and DeleteArtifact of
-- mongodb/mongodb_binding.go.
pub mod Created
pub mod Deleting
use bindings.MongoDb.Client.{
  create_user, create_role, drop_role, delete_database_user, drop_user, UserRole,
  atlas_error_status, run_command, Cluster, History,
}
use bindings.Common.{
  ℕ, get, ◌=?◌, [], ◌==◌, ◌∷◌, ◌++◌, not, push, GoMap, if◌then◌else◌, List, Bool, String,
}
use bindings.Exec.{message, describe, fail, ◌>>◌, has_code, err, GoError, ok, Exec}
use bindings.Sdk.{Artifact, Sdk, ArtifactType, user, role}

-- MongoServiceBinding after InitializeService; the clients are the `Cluster` of the operations.
pub record MongoDb : Type 0 where
  pub is_atlas : Bool
  pub service_config : GoMap
  pub user_wait_secs : ℕ

-- The user and the database of a base binding.
unfoldable pub account_names : String → Bool → String × String
account_names binding_id is_staging =
    if is_staging
    then ("cl_usr_stg_" ++ binding_id, "cl_stg_" ++ binding_id)
    else ("cl_usr_prd_" ++ binding_id, "cl_prd_" ++ binding_id)

-- The connection, and the local variable `artifacts`.
pub record Session : Type 0 where
  pub history : History
  pub artifacts : List Artifact

abbrev pub report : ArtifactType → String → Exec Session Unit
report kind name s =
    (ok tt, record s { artifacts = push s.artifacts (record { kind = kind; name = name }) })

abbrev pub on_cluster : {A : Type 0} → Exec History A → Exec Session A
on_cluster m s = let (r, h) = m s.history in (r, record s { history = h })

abbrev pub own_role : String → List UserRole
own_role name = record { role = name; db = "admin" } ∷ []

-- The roles of a base binding's user: full access to its own database.
abbrev pub base_roles : String → List UserRole
base_roles database =
    record { role = "readWrite"; db = database } ∷ record { role = "dbAdmin"; db = database } ∷ []

module _ (cluster : Cluster) where
  unfoldable pub create_account_user : String → String → List UserRole → Exec Session Unit
  unfolding run_command
  create_account_user name password roles = do
    on_cluster (
        describe ("error creating user " ++ name)
          (run_command cluster (create_user name password roles)))
    report user name

  unfoldable pub generate_self_hosted : String → String → String → Bool → Exec Session Unit
  unfolding create_account_user
  generate_self_hosted name password database is_derived =
      if not is_derived then create_account_user name password (base_roles database) else do
        on_cluster
            (describe ("error creating role " ++ name) (run_command cluster (create_role name [])))
        report role name
        create_account_user name password (own_role name)

  -- `if err != nil && !tolerated(err) { return fmt.Errorf(…) }`
  abbrev tolerate : (GoError → Bool) → String → Exec History Unit → Exec History Unit
  tolerate is_tolerated text m h =
      let (r, h') = m h in
      elim r [
        | ok _ ↦ (ok tt, h')
        | err e ↦ (if is_tolerated e then ok tt else err (GoError.wrap text e), h')
      ]

  module _ (sdk : Sdk) (b : MongoDb) where
    unfoldable pub delete_self_hosted : Artifact → Exec History Unit
    unfolding run_command has_code
    delete_self_hosted a = elim a.kind [
      | user ↦
          tolerate (λ e. has_code e 11) ("error dropping user " ++ a.name)
            (run_command cluster (drop_user a.name))
      | role ↦
          tolerate (λ e. has_code e 31) ("error dropping role " ++ a.name)
            (run_command cluster (drop_role a.name))
      | kind ↦ fail (message ("unsupported mongodb artifact type " ++ sdk.artifact_type_text kind))
    ]

    unfoldable pub delete_atlas : Artifact → Exec History Unit
    unfolding atlas_error_status delete_database_user
    delete_atlas a = elim a.kind [
      | user ↦
          tolerate (λ e. atlas_error_status e =? 404) ("error deleting atlas user " ++ a.name)
            (delete_database_user cluster (get b.service_config "project_id") a.name)
      | kind ↦ fail (message ("unsupported atlas artifact type " ++ sdk.artifact_type_text kind))
    ]

    unfoldable pub delete_artifact : Artifact → Exec History Unit
    unfolding delete_self_hosted delete_atlas
    delete_artifact a =
        if a.name == ""
        then fail (message "artifact name is required")
        else if b.is_atlas
        then delete_atlas a
        else delete_self_hosted a
