-- ===== src/Databricks/Workspace.antt =====
-- The Databricks workspace client. The REST API is a parameter that may answer each call as it
-- likes, depending on all the calls before; what the SQL plane answers may depend on them too.
use bindings.Common.{Bool, ◌∷◌, List, String, Option}
use bindings.Exec.{check, Result, GoError, Done, Exec}
use bindings.Sql.Plan.{Session}
use bindings.Sql.{Server}

-- iam.ServicePrincipal
pub record Principal : Type 0 where
  pub id : String
  pub application_id : String
  pub display_name : String

-- settings.CreateOboTokenRequest, of which the comment is constant
pub record OboRequest (Int : Type 0) : Type 0 where
  pub application_id : String
  pub lifetime_seconds : Int

-- A call with its answer.
pub data Call (Int : Type 0) : Type 0 where
  listed : String → Result (List Principal) → Call Int
  created : String → Result Principal → Call Int
  secret_created : String → Result String → Call Int
  token_created : OboRequest Int → Result String → Call Int
  permitted : String → String → Option GoError → Call Int
  deleted : String → Option GoError → Call Int

-- The newest call comes first; `Int` is int64.
pub record Workspace (Int : Type 0) : Type 0 where
  -- ServicePrincipalsV2.ListAll with a filter, Create and Delete
  pub list_principals : List (Call Int) → String → Result (List Principal)
  pub create_principal : List (Call Int) → String → Result Principal
  pub delete_principal : List (Call Int) → String → Option GoError
  -- ServicePrincipalSecretsProxy.Create and TokenManagement.CreateOboToken
  pub create_secret : List (Call Int) → String → Result String
  pub create_obo_token : List (Call Int) → OboRequest Int → Result String
  -- Warehouses.UpdatePermissions: CAN_USE on the warehouse for the application id
  pub update_permissions : List (Call Int) → String → String → Option GoError
  -- apierr.IsMissing
  pub is_missing : GoError → Bool
  -- The SQL plane
  pub server_at : List (Call Int) → Server

-- strconv.ParseInt(text, 10, 64), and the zero value
pub record IntLib (Int : Type 0) : Type 0 where
  pub zero_int : Int
  pub parse_int : String → Result Int

-- Both planes, with the local variable `artifacts` of GenerateAccount.
pub record World (Int : Type 0) : Type 0 where
  pub calls : List (Call Int)
  pub session : Session

module _ {Int : Type 0} (ws : Workspace Int) where
  -- An action of the SQL plane.
  abbrev pub on_sql : {A : Type 0} → (Server → Exec Session A) → Exec (World Int) A
  on_sql m w = let (r, s) = m (ws.server_at w.calls) w.session in (r, record w { session = s })

  unfoldable pub list_all : String → Exec (World Int) (List Principal)
  list_all filter w =
      let answer = ws.list_principals w.calls filter in
      (answer, record w { calls = listed filter answer ∷ w.calls })

  unfoldable pub create_principal : String → Exec (World Int) Principal
  create_principal display_name w =
      let answer = ws.create_principal w.calls display_name in
      (answer, record w { calls = created display_name answer ∷ w.calls })

  unfoldable pub create_secret : String → Exec (World Int) String
  create_secret id w =
      let answer = ws.create_secret w.calls id in
      (answer, record w { calls = secret_created id answer ∷ w.calls })

  unfoldable pub create_obo_token : OboRequest Int → Exec (World Int) String
  create_obo_token request w =
      let answer = ws.create_obo_token w.calls request in
      (answer, record w { calls = token_created request answer ∷ w.calls })

  unfoldable pub update_permissions : String → String → Exec (World Int) Done
  update_permissions warehouse application_id w =
      let answer = ws.update_permissions w.calls warehouse application_id in
      check answer (record w { calls = permitted warehouse application_id answer ∷ w.calls })

  unfoldable pub delete_principal : String → Exec (World Int) Done
  delete_principal id w =
      let answer = ws.delete_principal w.calls id in
      check answer (record w { calls = deleted id answer ∷ w.calls })
