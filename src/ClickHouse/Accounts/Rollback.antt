-- ===== src/ClickHouse/Accounts/Rollback.antt =====
-- DeleteArtifact of the ClickHouse provider undoes every artifact that GenerateAccount reports.
use bindings.ClickHouse.{on_cluster, quote_ident, ClickHouse}
use bindings.Common.{
  none, some, is_some, inr, inl, All, [], ℕ, GoMap, refl, eq_iff, arith, ◌∷◌, ◌++◌, ◌≢◌, false,
  true, ◌≡◌, Bool, String, Option,
}
use bindings.Exec.{answered, wrap_err, ok}
use bindings.Sdk.{NamesNotEmpty, artifact, database, user, role, Artifact, ArtifactType, Sdk}
use bindings.Sql.Plan.Reports.{IsAccounted-All}
use bindings.ClickHouse.Accounts.Provision.{generate_account-IsProvisioned, account_plan}
use bindings.ClickHouse.Accounts.{generate_account, account_names, Names, drop_sql, delete_artifact}
use bindings.Sql.Plan.{Session, Creates}
use bindings.ClickHouse.Password.{Random}
use bindings.Url.{UrlLib}
use bindings.Sql.{executed, History, exec_context, Server}

module _ (sdk : Sdk) (b : ClickHouse) where
  -- The statement that drops an artifact.
  abbrev pub dropping : Artifact → Option String
  dropping a = elim a.kind [
    | role ↦ some ("DROP ROLE IF EXISTS " ++ quote_ident sdk a.name ++ on_cluster sdk b)
    | user ↦ some ("DROP USER IF EXISTS " ++ quote_ident sdk a.name ++ on_cluster sdk b)
    | database ↦ some ("DROP DATABASE IF EXISTS " ++ quote_ident sdk a.name ++ on_cluster sdk b)
    | _ ↦ none
  ]

module _ (sdk : Sdk) (server : Server) (b : ClickHouse) where
  -- DeleteArtifact sends one statement, the drop of the artifact, and the server's answer decides.
  abbrev pub Deletes : Artifact → Type 0
  Deletes a =
      (stmt : String) × (dropping sdk b a ≡ some stmt)
      × ((h : History)
          → delete_artifact sdk server b a h ≡ (
            wrap_err ("error dropping " ++ sdk.artifact_type_text a.kind ++ " " ++ a.name)
                (answered (server.exec h stmt)),
            executed stmt (server.exec h stmt) ∷ h,
          ))

  abbrev is_supported : ArtifactType → Bool
  is_supported role = true
  is_supported user = true
  is_supported database = true
  is_supported _ = false

  delete_artifact-Deletes :
      (kind : ArtifactType) (name : String)
      → is_supported kind ≡ true
      → name ≢ ""
      → Deletes (artifact kind name)
  unfolding delete_artifact drop_sql exec_context
  delete_artifact-Deletes role name supported named = (_, refl, λ h. ground (arith, eq_iff name ""))
  delete_artifact-Deletes user name supported named = (_, refl, λ h. ground (arith, eq_iff name ""))
  delete_artifact-Deletes database name supported named =
      (_, refl, λ h. ground (arith, eq_iff name ""))
  delete_artifact-Deletes _ name supported named = cc

  account_plan-Deletes :
      (n : Names) (password_hash : String) (is_derived : Bool)
      → n.user_name ≢ ""
      → n.role_name ≢ ""
      → (is_derived ≡ false → n.database_name ≢ "")
      → Creates Deletes (account_plan sdk server b n password_hash is_derived)
  account_plan-Deletes n password_hash true u r d = (
    delete_artifact-Deletes role n.role_name refl r,
    (delete_artifact-Deletes user n.user_name refl u, (tt, tt)),
  )
  account_plan-Deletes n password_hash false u r d = (
    delete_artifact-Deletes role n.role_name refl r,
    (
      delete_artifact-Deletes database n.database_name refl (d refl),
      (tt, (delete_artifact-Deletes user n.user_name refl u, (tt, tt))),
    ),
  )

account_names-ne-empty :
    (sdk : Sdk)
    → NamesNotEmpty sdk
    → (binding_id : String) (is_staging : Bool) (derived_from : Option GoMap) (n : Names)
    → account_names sdk binding_id is_staging derived_from ≡ ok n
    → (n.user_name ≢ "")
      × (n.role_name ≢ "")
      × (is_some derived_from ≡ false → n.database_name ≢ "")
unfolding account_names
account_names-ne-empty sdk named id is_staging derived_from n e = grind (arith, named)

-- Every artifact that a GenerateAccount reports, whether it succeeded or not, can be deleted:
-- DeleteArtifact sends exactly one statement, the drop of that artifact, and returns an error
-- only if the server refuses it. That statement is `DROP ROLE`, `DROP USER` or `DROP DATABASE`, as
-- the artifact's kind says, of the artifact's name. The SDK's account names are not empty, and
-- nothing was reported before.
pub generate_account-Deletes :
    (sdk : Sdk) (server : Server) (b : ClickHouse) (urls : UrlLib) (sha256_hex : String → String)
    (random : Random) (k : ℕ) (binding_id : String) (derived_from : Option GoMap)
    (is_staging : Bool) (s : Session)
    → NamesNotEmpty sdk
    → s.artifacts ≡ []
    → All
        (Deletes sdk server b)
        (generate_account sdk server b urls sha256_hex random k binding_id derived_from is_staging
          s).1.artifacts
generate_account-Deletes sdk server b urls sha random k id derived_from staging s named empty =
    elim (generate_account-IsProvisioned sdk server b urls sha random k id derived_from staging s) [
      | inl (same, _) ↦ rw same (rw empty tt)
      | inr (password, n, names, p) ↦
          let (u, r, d) = account_names-ne-empty sdk named id staging derived_from n names in
          IsAccounted-All (Deletes sdk server b) p.accounted (rw empty tt)
            (account_plan-Deletes sdk server b n (sha password) (is_some derived_from) u r d)
    ]
