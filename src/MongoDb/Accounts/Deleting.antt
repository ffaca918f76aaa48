-- ===== src/MongoDb/Accounts/Deleting.antt =====
-- DeleteArtifact of the MongoDB provider undoes what its account generation reports.
use bindings.MongoDb.Accounts.{
  own_role, base_roles, Session, create_account_user, delete_self_hosted, generate_self_hosted,
  delete_artifact, MongoDb,
}
use bindings.Common.{
  ◌++◌, true, inr, inl, refl, eq_iff, none, arith, if◌then◌else◌, Option-cases, All, ◌∷◌, ◌≢◌,
  false, [], ◌≡◌, List, Bool, some, Option, ℕ, String,
}
use bindings.MongoDb.Client.{
  create_role, create_user, ran, run_command, drop_role, History, drop_user, Command, Cluster,
}
use bindings.Exec.{err, has_code, ok, Done, Result, GoError}
use bindings.Sdk.{Artifact, Sdk, user, role}

-- The command that drops an artifact, and the error code that says it is not there.
abbrev pub drop_command : Artifact → Option (Command × ℕ)
drop_command a = elim a.kind [
  | user ↦ some (drop_user a.name, 11)
  | role ↦ some (drop_role a.name, 31)
  | _ ↦ none
]

abbrev verdict : String → ℕ → Option GoError → Result Done
verdict text missing none = ok tt
verdict text missing (some e) = if has_code e missing then ok tt else err (GoError.wrap text e)

module _ (sdk : Sdk) (cluster : Cluster) (b : MongoDb) where
  -- DeleteArtifact runs that one command, and an object that is not there is no error.
  abbrev pub Deletes : Artifact → Type 0
  Deletes a =
      (c : Command) × (missing : ℕ) × (text : String) × (drop_command a ≡ some (c, missing))
      × ((h : History)
          → delete_artifact cluster sdk b a h
            ≡ (verdict text missing (cluster.run h c), ran c (cluster.run h c) ∷ h))

  user-Deletes :
      (name : String)
      → b.is_atlas ≡ false
      → name ≢ ""
      → Deletes (record { kind = user; name = name })
  unfolding delete_artifact delete_self_hosted run_command
  user-Deletes name self_hosted named = (
    drop_user name,
    11,
    "error dropping user " ++ name,
    refl,
    λ h. ground (arith, eq_iff name ""),
  )

  role-Deletes :
      (name : String)
      → b.is_atlas ≡ false
      → name ≢ ""
      → Deletes (record { kind = role; name = name })
  unfolding delete_artifact delete_self_hosted run_command
  role-Deletes name self_hosted named = (
    drop_role name,
    31,
    "error dropping role " ++ name,
    refl,
    λ h. ground (arith, eq_iff name ""),
  )

  -- The artifacts of a self-hosted account, however far its generation came.
  data IsAccount (name : String) : List Artifact → Type 0 where
    nothing : IsAccount name []
    only_role : IsAccount name (record { kind = role; name = name } ∷ [])
    only_user : IsAccount name (record { kind = user; name = name } ∷ [])
    both :
        IsAccount name
          (record { kind = role; name = name } ∷ record { kind = user; name = name } ∷ [])

  generate-IsAccount :
      (name password database : String) (is_derived : Bool) (s : Session)
      → s.artifacts ≡ []
      → IsAccount name
          (generate_self_hosted cluster name password database is_derived s).1.artifacts
  unfolding generate_self_hosted create_account_user run_command
  generate-IsAccount name password database false s empty =
      elim (Option-cases
        (cluster.run s.history (create_user name password (base_roles database)))) [
          | inl fine ↦ rw (fine, empty) only_user
          | inr (_, failed) ↦ rw (failed, empty) nothing
        ]
  generate-IsAccount name password database true s empty =
      elim (Option-cases (cluster.run s.history (create_role name []))) [
        | inr (_, failed) ↦ rw (failed, empty) nothing
        | inl fine ↦
            rw (fine, empty)
              (elim (Option-cases (
                cluster.run (ran (create_role name []) none ∷ s.history)
                  (create_user name password (own_role name)))) [
                    | inl also ↦ rw also both
                    | inr (_, failed) ↦ rw failed only_role
                  ])
      ]

  IsAccount-Deletes :
      (name : String) (artifacts : List Artifact)
      → b.is_atlas ≡ false
      → name ≢ ""
      → IsAccount name artifacts
      → All Deletes artifacts
  IsAccount-Deletes name _ self_hosted named nothing = tt
  IsAccount-Deletes name _ self_hosted named only_role = (role-Deletes name self_hosted named, tt)
  IsAccount-Deletes name _ self_hosted named only_user = (user-Deletes name self_hosted named, tt)
  IsAccount-Deletes name _ self_hosted named both =
      (role-Deletes name self_hosted named, (user-Deletes name self_hosted named, tt))

  -- Every artifact that the generation of a self-hosted account reports, whether it succeeded or
  -- not, can be deleted: DeleteArtifact runs exactly one command, the drop of that object, and an
  -- answer that the object is not there counts as success, so that a deletion may be repeated.
  pub generate_self_hosted-Deletes :
      (name password database : String) (is_derived : Bool) (s : Session)
      → b.is_atlas ≡ false
      → name ≢ ""
      → s.artifacts ≡ []
      → All Deletes (generate_self_hosted cluster name password database is_derived s).1.artifacts
  generate_self_hosted-Deletes name password database is_derived s self_hosted named empty =
      IsAccount-Deletes name _ self_hosted named
        (generate-IsAccount name password database is_derived s empty)
