-- ===== src/Databricks/Accounts/SetUp.antt =====
-- What GenerateAccount of the Databricks provider does once it has created a service principal.
use bindings.Exec.{
  err, describe, check, wrap_err, pure, GoError, Done, continue, ◌>>◌, Exec, ok, is_ok, Result,
}
use bindings.Common.{
  ◌∙◌, ap, none, inr, inl, refl, ◌++◌, some, Option, String, true, arith, [], ◌⊎◌, false, ◌∷◌, push,
  Bool, ◌≡◌, List,
}
use bindings.Databricks.Accounts.{
  set_up, all_privileges_sql, create_schema_sql, use_schema_sql, use_catalog_sql, create_token,
  create_account_credential, create_objects, Names,
}
use bindings.Databricks.Workspace.{
  on_sql, update_permissions, create_obo_token, create_secret, created, Workspace, Principal,
  IntLib, Call, World,
}
use bindings.Sdk.{schema, user, artifact, Sdk}
use mathlib.Core.Path.{subst}
use bindings.Sql.Plan.Runs.{
  Follows-IsProvisioned, Follows-creating, Follows-step, Follows-pure, IsProvisioned, Follows,
}
use bindings.Sql.Plan.{creating, step, Step, Session}
use bindings.Sql.{Server}
use bindings.GoText.{GoText}
use bindings.Databricks.{Databricks}

module _ {Int : Type 0} where
  -- The principals that were created, newest first, with the display name that was asked for.
  abbrev pub created_in : List (Call Int) → List (String × Principal)
  created_in [] = []
  created_in (created name (ok sp) ∷ calls) = (name, sp) ∷ created_in calls
  created_in (_ ∷ calls) = created_in calls

  -- A failure that created nothing, on neither plane.
  abbrev pub NothingDone : {A : Type 0} → World Int → Result A × World Int → Type 0
  NothingDone w out =
      (out.1.session ≡ w.session)
      × (created_in out.1.calls ≡ created_in w.calls)
      × (is_ok out.0 ≡ false)

  abbrev pub with_user : World Int → Names → Session
  with_user w n = record w.session {
    artifacts = push w.session.artifacts (artifact user n.sp_name);
  }

module _ (b : Databricks) (n : Names) (sp : Principal) where
  -- For a base binding the schema, and in any case the privileges of the principal.
  abbrev pub account_plan : Bool → List Step
  account_plan true = step (use_catalog_sql b n sp) ∷ step (use_schema_sql b n sp) ∷ []
  account_plan false =
      creating (create_schema_sql b n sp) (artifact schema n.schema_name)
      ∷ step (use_catalog_sql b n sp)
      ∷ step (all_privileges_sql b n sp)
      ∷ []

  create_objects-Follows :
      (server : Server) (is_derived : Bool)
      → Follows server (account_plan is_derived) (create_objects b n sp server is_derived)
  unfolding create_objects
  create_objects-Follows server true = search (Follows-pure, Follows-step) depth 7
  create_objects-Follows server false =
      search (Follows-pure, Follows-step, Follows-creating) depth 7

  -- After the principal was created, it is reported. Either its credential or its access to the
  -- warehouse fails and the SQL plane is left as it was, or the statements run as planned.
  abbrev pub IsSetUp :
      {Int : Type 0} {A : Type 0} → Bool → World Int → Result A × World Int → Type 0
  IsSetUp is_derived w out =
      ((out.1.session ≡ with_user w n) × (is_ok out.0 ≡ false))
      ⊎ IsProvisioned (account_plan is_derived) (with_user w n) (out.0, out.1.session)

module _ {Int : Type 0} (sdk : Sdk) (text : GoText) (ints : IntLib Int) (ws : Workspace Int)
    (b : Databricks) where
  create_account_credential-quiet :
      (sp : Principal) (w : World Int)
      → let out = create_account_credential sdk text ints ws b sp w in
        (out.1.session ≡ w.session) × (created_in out.1.calls ≡ created_in w.calls)
  unfolding create_account_credential create_token create_secret create_obo_token
  create_account_credential-quiet sp w = ground arith

  -- A run of the SQL plane, seen in the world.
  in_world :
      (plan : List Step) (s : Session) (run : Result Done × Session) (credential : String × String)
      (calls : List (Call Int))
      → IsProvisioned plan s (continue run.0 (λ _. pure credential) run.1)
      → let out : Result (String × String) × World Int =
          continue run.0 (λ _. pure credential) (record { calls = calls; session = run.1 }) in
        IsProvisioned plan s (out.0, out.1.session) × (out.1.calls ≡ calls)
  in_world plan s (ok _, s') credential calls p = (p, refl)
  in_world plan s (err e, s') credential calls p = (p, refl)

  module _ (n : Names) (sp : Principal) (is_derived : Bool) where
    abbrev pub Goal : {A : Type 0} → World Int → Result A × World Int → Type 0
    Goal w out = IsSetUp b n sp is_derived w out × (created_in out.1.calls ≡ created_in w.calls)

    abbrev objects : Exec (World Int) Done
    objects = on_sql ws λ server. create_objects b n sp server is_derived

    -- The SQL plane, from a world that has the user reported.
    objects-Goal :
        (credential : String × String) (w w2 : World Int)
        → w2.session ≡ with_user w n
        → created_in w2.calls ≡ created_in w.calls
        → Goal w ((objects >> pure credential) w2)
    objects-Goal credential w w2 reported same =
        let server = ws.server_at w2.calls in
        let (p, unchanged) =
          in_world (account_plan b n sp is_derived) w2.session
            (create_objects b n sp server is_derived w2.session) credential w2.calls
            (Follows-IsProvisioned server _ _ (λ _. pure credential) w2.session
              (create_objects-Follows b n sp server is_derived) (λ _ s'. refl)) in
        (
          inr (
              subst
                (λ s. IsProvisioned (account_plan b n sp is_derived) s (
                  ((objects >> pure credential) w2).0,
                  ((objects >> pure credential) w2).1.session,
                ))
                reported p),
          ap created_in unchanged ∙ same,
        )

    permitted-Goal :
        (credential : String × String) (error_text : String) (answer : Option GoError)
        (w w2 : World Int)
        → w2.session ≡ with_user w n
        → created_in w2.calls ≡ created_in w.calls
        → let out = check answer w2 in
          Goal w (continue (wrap_err error_text out.0) (λ _. objects >> pure credential) out.1)
    permitted-Goal credential error_text none w w2 reported same =
        objects-Goal credential w w2 reported same
    permitted-Goal credential error_text (some e) w w2 reported same = (inl (reported, refl), same)

    credential-Goal :
        (error_text : String) (r : Result (String × String)) (w w2 : World Int)
        → w2.session ≡ with_user w n
        → created_in w2.calls ≡ created_in w.calls
        → Goal w (
            continue
              (wrap_err error_text r)
              (λ credential.
                describe
                  ("error granting warehouse access to service principal " ++ n.sp_name)
                  (update_permissions ws b.warehouse_id sp.application_id)
                >> (objects >> pure credential))
              w2)
    unfolding update_permissions
    credential-Goal error_text (err e) w w2 reported same = (inl (reported, refl), same)
    credential-Goal error_text (ok credential) w w2 reported same =
        permitted-Goal credential _
          (ws.update_permissions w2.calls b.warehouse_id sp.application_id) w _ reported same

    pub set_up-Goal : (w : World Int) → Goal w (set_up sdk text ints ws b is_derived n sp w)
    unfolding set_up
    set_up-Goal w =
        let w1 : World Int = record w { session = with_user w n } in
        let (reported, same) = create_account_credential-quiet sp w1 in
        credential-Goal _ (create_account_credential sdk text ints ws b sp w1).0 w
          (create_account_credential sdk text ints ws b sp w1).1 reported same
