-- ===== src/MongoDb/Accounts/Created.antt =====
-- What the generation of a self-hosted account leaves, and what it reports.
use bindings.Common.{
  refl, true, sym, some, inr, inl, false, ap, none, eq_refl, ◌∙◌, Option-cases, arith, [], ◌≡◌, ◌∷◌,
  Bool, List, String,
}
use bindings.Exec.{err, ok, Done, Result}
use bindings.MongoDb.Client.{
  user_of, role_of, create_user, ran, UserRole, create_role, run_command, Command, Cluster, History,
}
use bindings.MongoDb.Accounts.{
  own_role, base_roles, generate_self_hosted, create_account_user, Session,
}
use bindings.Sdk.{Artifact, user, role}
use mathlib.Core.List.{◌++◌, append-nil, append_assoc}

-- The objects that the successful commands of a history created, in their order.
abbrev pub artifact_of : Command → List Artifact
artifact_of (create_role name privileges) = record { kind = role; name = name } ∷ []
artifact_of (create_user name password roles) = record { kind = user; name = name } ∷ []
artifact_of _ = []

abbrev pub created : History → List Artifact
created [] = []
created (ran c none ∷ h) = created h ++ artifact_of c
created (_ ∷ h) = created h

-- The same objects were created and reported.
abbrev pub Reports : Session → Session → Type 0
Reports s s' =
    (new : List Artifact) × (created s'.history ≡ created s.history ++ new)
    × (s'.artifacts ≡ s.artifacts ++ new)

-- What a success leaves: the user has its roles, and its own role allows nothing.
abbrev pub Provides : String → String → Bool → Result Done × Session → Type 0
Provides name database true (ok _, s) =
    (role_of name s.history ≡ some []) × (user_of name s.history ≡ some (own_role name))
Provides name database false (ok _, s) = user_of name s.history ≡ some (base_roles database)
Provides name database is_derived (err _, s) = Unit

module _ (cluster : Cluster) where
  create_account_user-Reports :
      (name password : String) (roles : List UserRole) (s : Session)
      → Reports s (create_account_user cluster name password roles s).1
  unfolding create_account_user run_command
  create_account_user-Reports name password roles s =
      elim (Option-cases (cluster.run s.history (create_user name password roles))) [
        | inl fine ↦ rw fine (_, refl, refl)
        | inr (_, failed) ↦ rw failed ([], sym (append-nil _), sym (append-nil _))
      ]

  Reports-after :
      (a : Artifact) (s s1 s' : Session)
      → created s1.history ≡ created s.history ++ (a ∷ [])
      → s1.artifacts ≡ s.artifacts ++ (a ∷ [])
      → Reports s1 s'
      → Reports s s'
  Reports-after a s s1 s' eh ea (new, enh, ena) = (
    a ∷ new,
    enh ∙ ap (λ l. l ++ new) eh ∙ append_assoc (created s.history) (a ∷ []) new,
    ena ∙ ap (λ l. l ++ new) ea ∙ append_assoc s.artifacts (a ∷ []) new,
  )

  generate-Reports :
      (name password database : String) (is_derived : Bool) (s : Session)
      → Reports s (generate_self_hosted cluster name password database is_derived s).1
  unfolding generate_self_hosted run_command
  generate-Reports name password database false s =
      create_account_user-Reports name password (base_roles database) s
  generate-Reports name password database true s =
      let made : Session = record {
        history = ran (create_role name []) none ∷ s.history;
        artifacts = s.artifacts ++ (record { kind = role; name = name } ∷ []);
      } in
      elim (Option-cases (cluster.run s.history (create_role name []))) [
        | inl fine ↦ rw fine (
            Reports-after (record { kind = role; name = name }) s made
              (create_account_user cluster name password (own_role name) made).1 refl refl
              (create_account_user-Reports name password (own_role name) made))
        | inr (_, failed) ↦ rw failed ([], sym (append-nil _), sym (append-nil _))
      ]

  generate-Provides :
      (name password database : String) (is_derived : Bool) (s : Session)
      → Provides name database is_derived
          (generate_self_hosted cluster name password database is_derived s)
  unfolding generate_self_hosted create_account_user run_command
  generate-Provides name password database false s = ground (arith, eq_refl name)
  generate-Provides name password database true s = ground (arith, eq_refl name)

  -- The generation of a self-hosted account reports exactly the objects that it created, on
  -- success and on failure alike. A success leaves a derived account with a user whose only role
  -- is its own, which allows nothing yet, and a base account with a user that has read-write and
  -- administration roles on its own database and no other role.
  pub generate_self_hosted-Provides :
      (name password database : String) (is_derived : Bool) (s : Session)
      → let out = generate_self_hosted cluster name password database is_derived s in
        Reports s out.1 × Provides name database is_derived out
  generate_self_hosted-Provides name password database is_derived s = (
    generate-Reports name password database is_derived s,
    generate-Provides name password database is_derived s,
  )
