-- ===== src/Databricks/Accounts/Provision.antt =====
-- GenerateAccount of the Databricks provider reports exactly what it created, on both planes.
use bindings.Common.{
  ◌∙◌, none, ap, some, ◌==◌, refl, ◌∷◌, Bool-cases, ◌++◌, inl, inr, List, [], config_keys, ◌≡◌, ◌⊎◌,
  Option-cases, is_some, Bool, GoMap, Option, String,
}
use bindings.Databricks.Accounts.SetUp.{set_up-Goal, created_in, IsSetUp, NothingDone}
use bindings.Exec.{◌>>◌, wrap_err, ◌>>=◌, err, ok, describe, Exec, pure, continue, Result}
use bindings.Databricks.Workspace.{
  listed, created, create_principal, Principal, list_all, World, Workspace, IntLib,
}
use bindings.Databricks.Accounts.{
  absent, first_named, account_of, set_up, account_names, generate_account, Names,
  find_service_principal, QueryLib,
}
use bindings.Sdk.{BindingMetadata, Sdk}
use bindings.Url.{UrlLib}
use bindings.Databricks.{Databricks}
use bindings.GoText.{GoText}

module _ {Int : Type 0} (sdk : Sdk) (text : GoText) (ints : IntLib Int) (ws : Workspace Int)
    (b : Databricks) where
  module _ (queries : QueryLib) (urls : UrlLib) (binding_id : String) (metadata : BindingMetadata)
      (derived_from : Option GoMap) (is_staging : Bool) (w : World Int) where
    abbrev is_derived : Bool
    is_derived = is_some derived_from

    abbrev pub Outcome : {A : Type 0} → Result A × World Int → Type 0
    Outcome out =
        NothingDone w out
        ⊎ ((n : Names) × (sp : Principal) × (account_names sdk text binding_id is_staging
                derived_from
              ≡ ok n)
            × (created_in out.1.calls ≡ (n.sp_name, sp) ∷ created_in w.calls)
            × IsSetUp b n sp is_derived w out)

    abbrev pub outcome : Result GoMap × World Int
    outcome =
        generate_account sdk text ints ws b queries urls binding_id metadata derived_from is_staging
          w

    -- The account is computed from the credential.
    mapped :
        (n : Names) (sp : Principal) (f : String × String → GoMap)
        (out : Result (String × String) × World Int)
        → IsSetUp b n sp is_derived w out
        → IsSetUp b n sp is_derived w (continue out.0 (λ c. pure (f c)) out.1)
    mapped n sp f (ok c, w') (inl (same, failed)) = inl (same, failed)
    mapped n sp f (err e, w') (inl (same, failed)) = inl (same, failed)
    mapped n sp f (ok c, w') (inr p) =
        inr (record { complete = p.complete; accounted = p.accounted; succeeds = p.succeeds })
    mapped n sp f (err e, w') (inr p) =
        inr (record { complete = p.complete; accounted = p.accounted; succeeds = p.succeeds })

    mapped-calls :
        (f : String × String → GoMap) (out : Result (String × String) × World Int)
        → (continue out.0 (λ c. pure (f c)) out.1).1 ≡ out.1
    mapped-calls f (ok c, w') = refl
    mapped-calls f (err e, w') = refl

    abbrev from_principal : Names → Principal → Exec (World Int) GoMap
    from_principal n sp = set_up sdk text ints ws b is_derived n sp >>= λ c.
        pure (account_of sdk text ints ws b queries urls n sp c)

    module _ (n : Names)
        (named : account_names sdk text binding_id is_staging derived_from ≡ ok n) where
      created-Outcome :
          (error_text filter : String) (ps : Result (List Principal)) (answer : Result Principal)
          → Outcome (
              continue (wrap_err error_text answer) (from_principal n) (record {
                calls = created n.sp_name answer ∷ listed filter ps ∷ w.calls;
                session = w.session;
              }))
      created-Outcome error_text filter ps (err e) = inl (refl, refl, refl)
      created-Outcome error_text filter ps (ok sp) =
          let w3 : World Int = record {
            calls = created n.sp_name (ok sp) ∷ listed filter ps ∷ w.calls;
            session = w.session;
          } in
          let f = account_of sdk text ints ws b queries urls n sp in
          let out = set_up sdk text ints ws b is_derived n sp w3 in
          let (done, same) = set_up-Goal sdk text ints ws b n sp is_derived w3 in
          inr (
            n,
            sp,
            named,
            ap (λ w'. created_in w'.calls) (mapped-calls f out) ∙ same,
            mapped n sp f out done,
          )

      found-Outcome :
          (filter : String) (ps : Result (List Principal)) (found : Option Principal)
          → Outcome (
              (absent sdk text ints ws b n found
                  >> (describe
                        ("error creating service principal " ++ n.sp_name)
                        (create_principal ws n.sp_name)
                      >>= (from_principal n)))
                (record { calls = listed filter ps ∷ w.calls; session = w.session }))
      unfolding create_principal
      found-Outcome filter ps none = created-Outcome _ filter ps (ws.create_principal _ n.sp_name)
      found-Outcome filter ps (some _) = inl (refl, refl, refl)

      listed-Outcome :
          (error_text filter : String) (ps : Result (List Principal))
          → let out : Result (Option Principal) × World Int =
              continue ps
                (λ principals. pure (first_named principals n.sp_name))
                (record { calls = listed filter ps ∷ w.calls; session = w.session }) in
            Outcome (
              continue
                (wrap_err error_text out.0)
                (λ existing.
                  absent sdk text ints ws b n existing
                  >> (describe
                        ("error creating service principal " ++ n.sp_name)
                        (create_principal ws n.sp_name)
                      >>= (from_principal n)))
                out.1)
      listed-Outcome error_text filter (err e) = inl (refl, refl, refl)
      listed-Outcome error_text filter (ok ps) =
          found-Outcome filter (ok ps) (first_named ps n.sp_name)

    names-Outcome :
        (r : Result Names)
        → account_names sdk text binding_id is_staging derived_from ≡ r
        → Outcome (
            continue r
              (λ n.
                describe
                  ("error checking service principal " ++ n.sp_name)
                  (find_service_principal sdk text ints ws b n.sp_name)
                >>= λ existing.
                    absent sdk text ints ws b n existing
                    >> (describe
                          ("error creating service principal " ++ n.sp_name)
                          (create_principal ws n.sp_name)
                        >>= from_principal n))
              w)
    unfolding find_service_principal list_all
    names-Outcome (err e) failed = inl (refl, refl, refl)
    names-Outcome (ok n) named = listed-Outcome n named _ _ _

    -- A GenerateAccount of Databricks either fails and has created nothing, the SQL plane being left
    -- as it was, or it has created one service principal, under the account's name, and reports it.
    -- Then either the credential or the access to the warehouse failed and the SQL plane is left
    -- as it was, or the account's statements ran in their order up to the first that fails, and
    -- exactly the objects whose statement succeeded are reported too; without an error all of them
    -- succeeded.
    pub generate_account-IsProvisioned_of_databricks : Outcome outcome
    unfolding generate_account
    generate_account-IsProvisioned_of_databricks =
        elim (Option-cases (sdk.verify_keys (config_keys metadata.config) [] [])) [
          | inr (_, failed) ↦ inl (rw failed (refl, refl, refl))
          | inl fine ↦ elim (Bool-cases (b.warehouse_id == "")) [
            | inl missing ↦ inl (rw (fine, missing) (refl, refl, refl))
            | inr has_id ↦ rw (fine, has_id) (names-Outcome _ refl)
          ]
        ]
