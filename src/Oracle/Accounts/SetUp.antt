-- ===== src/Oracle/Accounts/SetUp.antt =====
-- What GenerateAccount of the Oracle provider does once it has created a user.
use bindings.Common.{
  sym, ◌∙◌, refl, [], ◌∷◌, some, none, arith, Option-cases, ◌≡◌, List, String, Bool, inl, inr,
}
use bindings.Exec.{wrap_err, ok, err, ◌>>◌, is_ok, Done, continue, Result}
use bindings.Oracle.Accounts.{
  trigger_sql, grant_create_sql, run, quota_sql, grant_session_sql, set_up_base, default_tablespace,
  set_up_derived,
}
use bindings.Sql.Executions.{Execution, executions}
use bindings.Sdk.{Sdk}
use mathlib.Core.List.{◌++◌, append-nil, append_assoc}
use bindings.Sql.{History, Server, query_row, query_context, exec_context, executed}
use bindings.Sql.Plan.{Session}
use mathlib.Core.Bool.{true, false}

-- The server named the tablespace, at some time, as the default one.
abbrev IsDefault : Server → String → Type 0
IsDefault server tablespace =
    (h : History) × ((query_row server
        "SELECT property_value FROM database_properties WHERE property_name = 'DEFAULT_PERMANENT_TABLESPACE'"
        [] h).0
      ≡ ok tablespace)

-- The statements after the user was created, for a base account on the default tablespace.
pub data IsSetUp (sdk : Sdk) (server : Server) (name schema_name : String)
    : Bool → List Execution → Type 0 where
  base :
      (tablespace : String)
      → IsDefault server tablespace
      → IsSetUp sdk server name schema_name false
          ((quota_sql sdk name tablespace, none) ∷ (grant_create_sql sdk name, none) ∷ [])
  derived :
      IsSetUp sdk server name schema_name true
        ((grant_session_sql sdk name, none) ∷ (trigger_sql sdk name schema_name, none) ∷ [])

module _ (sdk : Sdk) (server : Server) where
  -- A run that reports nothing more, and has done all of the setting up if it succeeds.
  abbrev pub SetsUp : String → String → Bool → Session → Result Done × Session → Type 0
  SetsUp name schema_name is_derived s (r, s') =
      (more : List Execution) × (executions s'.history ≡ executions s.history ++ more)
      × (s'.artifacts ≡ s.artifacts)
      × (is_ok r ≡ true → IsSetUp sdk server name schema_name is_derived more)

  pub derived-SetsUp :
      (name schema_name : String) (s : Session)
      → SetsUp name schema_name true s (set_up_derived sdk server name schema_name s)
  unfolding set_up_derived exec_context
  derived-SetsUp name schema_name s =
      elim (Option-cases (server.exec s.history (grant_session_sql sdk name))) [
        | inr (e, failed) ↦ rw failed (_, refl, refl, λ h. cc)
        | inl granted ↦
            rw granted
              (elim (Option-cases (
                server.exec (executed (grant_session_sql sdk name) none ∷ s.history)
                  (trigger_sql sdk name schema_name))) [
                    | inr (e, failed) ↦
                        rw failed (_, append_assoc (executions s.history) _ _, refl, λ h. cc)
                    | inl fine ↦
                        rw fine (_, append_assoc (executions s.history) _ _, refl, λ h. derived)
                  ])
      ]

  tablespace-executions :
      (h : History) → executions (default_tablespace sdk server h).1 ≡ executions h
  unfolding default_tablespace query_row query_context
  tablespace-executions h = ground arith

  tablespace-IsDefault :
      (h : History) (tablespace : String)
      → (default_tablespace sdk server h).0 ≡ ok tablespace
      → IsDefault server tablespace
  unfolding default_tablespace
  tablespace-IsDefault h tablespace e = (h, unwrapped _ e)
    where
      unwrapped :
          (r : Result String)
          → wrap_err "error querying default tablespace" r ≡ ok tablespace
          → r ≡ ok tablespace
      unwrapped (ok _) e = e
      unwrapped (err _) e = cc

  after_tablespace :
      (name schema_name quota_text grant_text : String) (s : Session)
      (out : Result String × History)
      → executions out.1 ≡ executions s.history
      → ((tablespace : String) → out.0 ≡ ok tablespace → IsDefault server tablespace)
      → SetsUp name schema_name false s (
          continue out.0
            (λ tablespace.
              run sdk server (quota_sql sdk name tablespace) quota_text
              >> run sdk server (grant_create_sql sdk name) grant_text)
            (record s { history = out.1 }))
  unfolding exec_context
  after_tablespace name schema_name quota_text grant_text s (err e, h1) quiet named =
      ([], quiet ∙ sym (append-nil _), refl, λ h. cc)
  after_tablespace name schema_name quota_text grant_text s (ok tablespace, h1) quiet named =
      elim (Option-cases (server.exec h1 (quota_sql sdk name tablespace))) [
        | inr (e, failed) ↦
            rw failed ((quota_sql sdk name tablespace, some e) ∷ [], rw quiet refl, refl, λ h. cc)
        | inl set ↦
            rw set
              (elim (Option-cases (
                server.exec (executed (quota_sql sdk name tablespace) none ∷ h1)
                  (grant_create_sql sdk name))) [
                    | inr (e, failed) ↦ rw failed (
                      (quota_sql sdk name tablespace, none)
                          ∷ (grant_create_sql sdk name, some e)
                          ∷ [],
                      rw quiet (append_assoc (executions s.history) _ _),
                      refl,
                      λ h. cc,
                    )
                    | inl fine ↦ rw fine (
                      (quota_sql sdk name tablespace, none)
                          ∷ (grant_create_sql sdk name, none)
                          ∷ [],
                      rw quiet (append_assoc (executions s.history) _ _),
                      refl,
                      λ h. base tablespace (named tablespace refl),
                    )
                  ])
      ]

  pub base-SetsUp :
      (name schema_name : String) (s : Session)
      → SetsUp name schema_name false s (set_up_base sdk server name s)
  unfolding set_up_base
  base-SetsUp name schema_name s =
      after_tablespace name schema_name _ _ s (default_tablespace sdk server s.history)
        (tablespace-executions s.history) (tablespace-IsDefault s.history)
