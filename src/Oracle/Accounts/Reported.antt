-- ===== src/Oracle/Accounts/Reported.antt =====
-- What GenerateAccount of the Oracle provider executed, and what it reports.
use bindings.Common.{
  eq_iff, ◌≢◌, ◌==◌, ◌⊎◌, get, Bool-cases, is_some, GoMap, Option, ℕ, if◌then◌else◌, ap, ◌∙◌, refl,
  push, [], ◌∷◌, some, none, arith, Option-cases, ◌≡◌, List, String, Bool, inl, inr,
}
use bindings.Exec.{Result-cases, pure, ◌>>=◌, lift, ok, err, is_ok, Done, GoError, continue, Result}
use bindings.Oracle.Accounts.{
  shared_schema, name_options, create_objects, generate_account, created_user, create_user_sql,
  set_up_base, set_up_derived,
}
use bindings.Oracle.{Oracle}
use bindings.Sql.Executions.{Execution, executions}
use bindings.Sdk.{Sdk}
use mathlib.Core.List.{◌++◌, append_assoc}
use bindings.Sql.{Server, exec_context, executed}
use bindings.Sql.Plan.{Session}
use mathlib.Core.Bool.{true, false}
use bindings.Oracle.Accounts.SetUp.{IsSetUp, SetsUp, derived-SetsUp, base-SetsUp}

-- The schema of an account: its own, or for a derived binding that of the base account.
abbrev pub SchemaOf : Option GoMap → String → String → Type 0
SchemaOf none own schema_name = schema_name ≡ own
SchemaOf (some account) own schema_name = (schema_name ≡ get account "schema") × (schema_name ≢ "")

-- How the generation of an account with a name, a password and a schema may end: the creation of
-- the user was the one statement, and was refused; or the user was created and is reported.
pub data Ends (sdk : Sdk) (server : Server) (name password schema_name : String) (is_derived : Bool)
    (s s' : Session) (succeeded : Bool) : Type 0 where
  refused :
      (e : GoError)
      → executions s'.history
        ≡ executions s.history ++ ((create_user_sql sdk name password, some e) ∷ [])
      → s'.artifacts ≡ s.artifacts
      → succeeded ≡ false
      → Ends sdk server name password schema_name is_derived s s' succeeded
  created :
      (more : List Execution)
      → executions s'.history
        ≡ executions s.history ++ ((create_user_sql sdk name password, none) ∷ more)
      → s'.artifacts ≡ push s.artifacts (created_user name)
      → (succeeded ≡ true → IsSetUp sdk server name schema_name is_derived more)
      → Ends sdk server name password schema_name is_derived s s' succeeded

module _ (sdk : Sdk) (server : Server) where
  module _ (name schema_name password : String) where
    after_user :
        (is_derived : Bool) (s s1 : Session) (out : Result Done × Session)
        → executions s1.history
          ≡ executions s.history ++ ((create_user_sql sdk name password, none) ∷ [])
        → s1.artifacts ≡ push s.artifacts (created_user name)
        → SetsUp sdk server name schema_name is_derived s1 out
        → Ends sdk server name password schema_name is_derived s out.1 (is_ok out.0)
    after_user is_derived s s1 out eh ea (more, added, same, done) =
        created more (added ∙ ap (λ l. l ++ more) eh ∙ append_assoc (executions s.history) _ more)
          (same ∙ ea) done

    create_objects-Ends :
        (is_derived : Bool) (s : Session)
        → let out = create_objects sdk server is_derived name schema_name password s in
          Ends sdk server name password schema_name is_derived s out.1 (is_ok out.0)
    unfolding create_objects exec_context
    create_objects-Ends is_derived s =
        elim (Option-cases (server.exec s.history (create_user_sql sdk name password))) [
          | inr (e, failed) ↦ rw failed (refused e refl refl refl)
          | inl fine ↦ rw fine (set_up is_derived)
        ]
      where
        made : Session
        made = record {
          history = executed (create_user_sql sdk name password) none ∷ s.history;
          artifacts = push s.artifacts (created_user name);
        }

        set_up :
            (is_derived : Bool)
            → let out =
                (if is_derived
                    then set_up_derived sdk server name schema_name
                    else set_up_base sdk server name)
                  made in
              Ends sdk server name password schema_name is_derived s out.1 (is_ok out.0)
        set_up true =
            after_user true s made _ refl refl (derived-SetsUp sdk server name schema_name made)
        set_up false =
            after_user false s made _ refl refl (base-SetsUp sdk server name schema_name made)

    -- What follows the objects changes nothing on the server, and may only fail.
    Ends-then :
        {A B : Type 0} (is_derived : Bool) (s : Session) (out : Result Done × Session)
        (r : Result A) (f : A → B)
        → Ends sdk server name password schema_name is_derived s out.1 (is_ok out.0)
        → let final = continue out.0 (λ _. lift r >>= λ a. pure (f a)) out.1 in
          Ends sdk server name password schema_name is_derived s final.1 (is_ok final.0)
    Ends-then is_derived s (ok _, s') (ok a) f e = e
    Ends-then is_derived s (ok _, s') (err _) f (created more eh ea done) =
        created more eh ea (λ h. cc)
    Ends-then is_derived s (ok _, s') (err _) f (refused e eh ea h) = refused e eh ea refl
    Ends-then is_derived s (err _, s') r f e = e

  shared_schema-SchemaOf :
      (derived_from : Option GoMap) (own schema_name : String)
      → shared_schema derived_from own ≡ ok schema_name
      → SchemaOf derived_from own schema_name
  unfolding shared_schema
  shared_schema-SchemaOf none own schema_name e = cc
  shared_schema-SchemaOf (some account) own schema_name e =
      elim (Bool-cases (get account "schema" == "")) [
        | inl missing ↦ cc
        | inr found ↦ ground (arith, eq_iff schema_name "")
      ]

  -- How a GenerateAccount ends: it did nothing and failed; or it has the drawn password, the SDK's
  -- name for the binding and the account's schema, and ends as they say.
  abbrev pub Generates :
      {A : Type 0}
      → (ℕ → Result String)
      → String
      → Option GoMap
      → Bool
      → Session
      → Result A × Session
      → Type 0
  Generates random_hex id derived_from is_staging s out =
      ((out.1 ≡ s) × (is_ok out.0 ≡ false))
      ⊎ ((name password schema_name : String) × (random_hex 15 ≡ ok password)
          × (sdk.account_name "CP_" "CS_" id is_staging name_options ≡ ok name)
          × SchemaOf derived_from name schema_name
          × Ends sdk server name password schema_name (is_some derived_from) s out.1 (is_ok out.0))

  -- A GenerateAccount of the Oracle provider ends in one of three ways: it executed nothing and
  -- failed; its one statement, the creation of the user with the SDK's name and the drawn
  -- password, was refused, and nothing is reported; or the user was created and is the one artifact
  -- reported. A success is of the third kind, and every further statement was accepted: for a base
  -- account its quota on the tablespace that the server named as the default one and the privileges
  -- to create, for a derived one the right to connect and the logon trigger for the schema of the
  -- base account.
  pub generate_account-Ends :
      (b : Oracle) (random_hex : ℕ → Result String) (binding_id : String)
      (derived_from : Option GoMap) (is_staging : Bool) (s : Session)
      → Generates random_hex binding_id derived_from is_staging s
          (generate_account sdk server b random_hex binding_id derived_from is_staging s)
  unfolding generate_account
  generate_account-Ends b random_hex id derived_from is_staging s =
      elim (Result-cases (random_hex 15)) [
        | inr (_, failed) ↦ rw failed (inl (refl, refl))
        | inl (password, drawn) ↦
            elim (Result-cases (sdk.account_name "CP_" "CS_" id is_staging name_options)) [
              | inr (_, failed) ↦ rw (drawn, failed) (inl (refl, refl))
              | inl (name, named) ↦ elim (Result-cases (shared_schema derived_from name)) [
                | inr (_, failed) ↦ rw (drawn, named, failed) (inl (refl, refl))
                | inl (schema_name, shared) ↦
                    rw (drawn, named, shared)
                      (inr (
                        name,
                        password,
                        schema_name,
                        refl,
                        refl,
                        shared_schema-SchemaOf derived_from name schema_name shared,
                        Ends-then name schema_name password (is_some derived_from) s
                            (create_objects sdk server (is_some derived_from) name schema_name
                              password s)
                            _ _
                            (create_objects-Ends name schema_name password (is_some derived_from)
                              s),
                      ))
              ]
            ]
      ]
