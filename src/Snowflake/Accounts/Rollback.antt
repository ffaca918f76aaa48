-- ===== src/Snowflake/Accounts/Rollback.antt =====
-- DeleteArtifact of the Snowflake provider undoes every artifact that GenerateAccount reports.
use bindings.Common.{
  get, none, some, ◌∷◌, inr, inl, refl, ◌++◌, eq_iff, All, is_some, arith, [], ◌≡◌, false, GoMap,
  true, ◌≢◌, Option, Bool, String,
}
use bindings.Snowflake.{quote_ident, Snowflake}
use bindings.Sql.Plan.Reports.{IsAccounted-All}
use bindings.Sql.{executed, History, exec_context, Server}
use bindings.Snowflake.Accounts.Provision.{
  generate_account-IsProvisioned_of_snowflake, account_plan,
}
use bindings.Sdk.{schema, user, role, artifact, Artifact, ArtifactType, Sdk, NamesNotEmpty}
use bindings.Snowflake.Accounts.{
  generate_account, drop_sql, Names, delete_artifact, shared_schema, account_names,
}
use bindings.Exec.{wrap_err, ok, answered}
use bindings.Sql.Plan.{Creates, Session}
use bindings.Snowflake.Auth.{KeyLib}
use bindings.GoText.{GoText}

module _ (sdk : Sdk) (text : GoText) (b : Snowflake) where
  -- The statement that drops one kind of artifact; a schema goes with its contents.
  abbrev pub dropping : Artifact → Option String
  dropping a = elim a.kind [
    | role ↦ some ("DROP ROLE IF EXISTS " ++ quote_ident sdk text a.name)
    | user ↦ some ("DROP USER IF EXISTS " ++ quote_ident sdk text a.name)
    | schema ↦ some (
        "DROP SCHEMA IF EXISTS "
        ++ quote_ident sdk text (get b.service_config "database")
        ++ "."
        ++ quote_ident sdk text a.name
        ++ " CASCADE")
    | _ ↦ none
  ]

module _ (sdk : Sdk) (text : GoText) (server : Server) (b : Snowflake) where
  -- DeleteArtifact sends one statement, the drop of the artifact, and the server's answer decides.
  abbrev pub Deletes : Artifact → Type 0
  Deletes a =
      (stmt : String) × (dropping sdk text b a ≡ some stmt)
      × ((h : History)
          → delete_artifact sdk text server b a h ≡ (
            wrap_err ("error dropping " ++ sdk.artifact_type_text a.kind ++ " " ++ a.name)
                (answered (server.exec h stmt)),
            executed stmt (server.exec h stmt) ∷ h,
          ))

  abbrev is_supported : ArtifactType → Bool
  is_supported role = true
  is_supported user = true
  is_supported schema = true
  is_supported _ = false

  delete_artifact-Deletes :
      (kind : ArtifactType) (name : String)
      → is_supported kind ≡ true
      → name ≢ ""
      → Deletes (artifact kind name)
  unfolding delete_artifact drop_sql exec_context
  delete_artifact-Deletes role name supported named = (_, refl, λ h. ground (arith, eq_iff name ""))
  delete_artifact-Deletes user name supported named = (_, refl, λ h. ground (arith, eq_iff name ""))
  delete_artifact-Deletes schema name supported named =
      (_, refl, λ h. ground (arith, eq_iff name ""))
  delete_artifact-Deletes _ name supported named = cc

  account_plan-Deletes :
      (n : Names) (public_key_b64 : String) (is_derived : Bool)
      → n.user_name ≢ ""
      → n.role_name ≢ ""
      → (is_derived ≡ false → n.schema_name ≢ "")
      → Creates Deletes (account_plan sdk text server b n public_key_b64 is_derived)
  account_plan-Deletes n key true u r d = (
    delete_artifact-Deletes role n.role_name refl r,
    (tt, (tt, (delete_artifact-Deletes user n.user_name refl u, (tt, tt)))),
  )
  account_plan-Deletes n key false u r d = (
    delete_artifact-Deletes role n.role_name refl r,
    (
      tt,
      (
        tt,
        (
          delete_artifact-Deletes schema n.schema_name refl (d refl),
          (tt, (delete_artifact-Deletes user n.user_name refl u, (tt, tt))),
        ),
      ),
    ),
  )

account_names-ne-empty :
    (sdk : Sdk)
    → NamesNotEmpty sdk
    → (binding_id : String) (is_staging : Bool) (derived_from : Option GoMap) (n : Names)
    → account_names sdk binding_id is_staging derived_from ≡ ok n
    → (n.user_name ≢ "") × (n.role_name ≢ "") × (is_some derived_from ≡ false → n.schema_name ≢ "")
unfolding account_names shared_schema
account_names-ne-empty sdk named id is_staging derived_from n e = grind (arith, named)

-- Every artifact that a GenerateAccount of Snowflake reports, whether it succeeded or not, can be
-- deleted: DeleteArtifact sends exactly one statement, the drop of that artifact, and returns an
-- error only if the server refuses it. That statement is `DROP ROLE`, `DROP USER` or `DROP SCHEMA`
-- (with its contents), as the artifact's kind says, of the artifact's name. The SDK's account names
-- are not empty, and nothing was reported before.
pub generate_account-Deletes_of_snowflake :
    (sdk : Sdk) (text : GoText) (server : Server) (b : Snowflake) {Key : Type 0} (keys : KeyLib Key)
    (binding_id : String) (derived_from : Option GoMap) (is_staging : Bool) (s : Session)
    → NamesNotEmpty sdk
    → s.artifacts ≡ []
    → All
        (Deletes sdk text server b)
        (generate_account sdk text server b keys binding_id derived_from is_staging s).1.artifacts
generate_account-Deletes_of_snowflake sdk text server b keys id derived_from staging s named empty =
    elim (generate_account-IsProvisioned_of_snowflake sdk text server b keys id derived_from staging
      s) [
        | inl (same, _) ↦ rw same (rw empty tt)
        | inr (n, pair, names, _, p) ↦
            let (u, r, d) = account_names-ne-empty sdk named id staging derived_from n names in
            IsAccounted-All (Deletes sdk text server b) p.accounted (rw empty tt) (
              account_plan-Deletes sdk text server b n pair.public_key_b64 (is_some derived_from) u
                r d)
      ]
