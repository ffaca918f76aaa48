-- ===== src/MongoDb/Client.antt =====
-- The connections of the MongoDB provider: the driver's admin client, the clients that are opened
-- for one ping, and the Atlas Admin API of mongodb/mongodb_atlas_api.go. The driver, the cluster
-- and the API's server are a parameter that may answer as they like, depending on what went before.
use bindings.Exec.{
  Done, vendor, err, lift, ok, ◌>>=◌, describe, ◌>>-◌, wrap_err, ◌>>◌, GoError, check, vendor_code,
  Result, Exec,
}
use bindings.Common.{
  ◌&&◌, ◌==◌, some, leb, [], if◌then◌else◌, ◌++◌, ◌∷◌, none, List, ℕ, Option, String,
}
use bindings.MongoDb.Grants.{Privilege, AtlasRole}

-- A role of an in-database user.
pub record UserRole : Type 0 where
  pub role : String
  pub db : String

-- The command documents of the provider, all run in the database admin.
pub data Command : Type 0 where
  create_role : String → List Privilege → Command
  update_role : String → List Privilege → Command
  create_user : String → String → List UserRole → Command
  drop_user : String → Command
  drop_role : String → Command

-- atlasScope and atlasDatabaseUser
pub record AtlasScope : Type 0 where
  pub name : String
  pub scope_type : String

pub record AtlasUser : Type 0 where
  pub database_name : String
  pub user_name : String
  pub password : String
  pub description : String
  pub roles : List AtlasRole
  pub scopes : List AtlasScope

pub data Body : Type 0 where
  no_body : Body
  of_user : AtlasUser → Body
  of_roles : List AtlasRole → Body

pub data Method : Type 0 where
  get_method post patch delete : Method

-- A request of the Atlas client: its method, the path after the base URL, and its body.
pub record Request : Type 0 where
  pub method : Method
  pub path : String
  pub body : Body

-- A status, and what reading the body gives.
pub record Response : Type 0 where
  pub status : ℕ
  pub read : Result String

pub data Event : Type 0 where
  ran : Command → Option GoError → Event
  counted : String → Result ℕ → Event
  connected : String → Option GoError → Event
  pinged : String → Option GoError → Event
  probed : String → Option GoError → Event
  disconnected : String → Option GoError → Event
  sent : Request → Result Response → Event
  waited : Event
  commanded : String → String → String → Event

-- The newest event comes first.
abbrev pub History : Type 0
History = List Event

pub record Cluster : Type 0 where
  -- RunCommand(…).Err() on the admin client, and the number of users that usersInfo decodes
  pub run : History → Command → Option GoError
  pub users : History → String → Result ℕ
  -- mongo.Connect, Ping and Disconnect of a client at a URL
  pub connect : History → String → Option GoError
  pub ping : History → String → Option GoError
  pub disconnect : History → String → Option GoError
  -- the command usersInfo on a client at a URL
  pub probe : History → String → Option GoError
  -- http.NewRequestWithContext and client.Do
  pub new_request : Request → Option GoError
  pub send : History → Request → Result Response
  -- url.PathEscape, and the detail that json.Unmarshal reads of an error's body
  pub path_escape : String → String
  pub error_text : String → String

module _ (cluster : Cluster) where
  -- b.adminClient.Database("admin").RunCommand(ctx, command).Err()
  unfoldable pub run_command : Command → Exec History Unit
  run_command c h = let answer = cluster.run h c in check answer (ran c answer ∷ h)

  unfoldable pub count_users : String → Exec History ℕ
  count_users name h = let answer = cluster.users h name in (answer, counted name answer ∷ h)

  unfoldable pub connect_url : String → Exec History Unit
  connect_url url h = let answer = cluster.connect h url in check answer (connected url answer ∷ h)

  unfoldable pub ping_url : String → Exec History Unit
  ping_url url h = let answer = cluster.ping h url in check answer (pinged url answer ∷ h)

  unfoldable pub disconnect_url : String → Exec History Unit
  disconnect_url url h =
      let answer = cluster.disconnect h url in check answer (disconnected url answer ∷ h)

  unfoldable pub probe_url : String → Exec History Unit
  probe_url url h = let answer = cluster.probe h url in check answer (probed url answer ∷ h)

  -- `defer client.Disconnect(…)`: whatever the body returns, and the error is ignored
  abbrev pub with_disconnect : {A : Type 0} → String → Exec History A → Exec History A
  with_disconnect url m h =
      let (r, h') = m h in (r, disconnected url (cluster.disconnect h' url) ∷ h')

  -- pingMongoURL
  unfoldable pub ping_mongo_url : String → Exec History Unit
  unfolding connect_url ping_url
  ping_mongo_url url = connect_url url >> with_disconnect url (ping_url url)

  -- The status test of atlasClient.do: the errors of an API answer carry its status.
  unfoldable pub check_status : ℕ → String → Result Done
  check_status status body =
      if leb 200 status && leb status 299
      then ok tt
      else err (vendor status (cluster.error_text body))

  abbrev read_response : Response → Result Done
  read_response r =
      wrap_err "error reading atlas api response" r.read >>- λ body. check_status r.status body

  -- atlasClient.do, with `out` nil as every caller has it
  unfoldable pub atlas_do : Request → Exec History Unit
  unfolding check_status
  atlas_do request = do
    describe "error creating atlas api request" (check (cluster.new_request request))
    response ← λ h. (
      wrap_err "error calling atlas api" (cluster.send h request),
      sent request (cluster.send h request) ∷ h,
    )
    lift (read_response response)

  module _ (project_id : String) where
    unfoldable pub users_path : String
    users_path = "/api/atlas/v2/groups/" ++ cluster.path_escape project_id ++ "/databaseUsers"

    unfoldable pub user_path : String → String
    unfolding users_path
    user_path name = users_path ++ "/" ++ "admin" ++ "/" ++ cluster.path_escape name

    unfoldable pub verify_access : Exec History Unit
    verify_access =
        atlas_do
          (record { method = get_method; path = users_path ++ "?itemsPerPage=1"; body = no_body })

    unfoldable pub create_database_user : AtlasUser → Exec History Unit
    create_database_user user =
        atlas_do (record { method = post; path = users_path; body = of_user user })

    unfoldable pub update_database_user_roles : String → List AtlasRole → Exec History Unit
    update_database_user_roles name roles =
        atlas_do (record { method = patch; path = user_path name; body = of_roles roles })

    unfoldable pub delete_database_user : String → Exec History Unit
    delete_database_user name =
        atlas_do (record { method = delete; path = user_path name; body = no_body })

-- atlasErrorStatus
unfoldable pub atlas_error_status : GoError → ℕ
unfolding vendor_code
atlas_error_status e = elim (vendor_code e) [ none ↦ 0 | some status ↦ status ]

-- What the administrators' commands left in the database, read off the commands that succeeded:
-- the privileges of a role, and the roles of a user.
abbrev pub role_after : String → Command → Option (List Privilege) → Option (List Privilege)
role_after name (create_role n p) old = if n == name then some p else old
role_after name (update_role n p) old = if n == name then some p else old
role_after name (drop_role n) old = if n == name then none else old
role_after name _ old = old

abbrev pub role_of : String → History → Option (List Privilege)
role_of name [] = none
role_of name (ran c none ∷ h) = role_after name c (role_of name h)
role_of name (_ ∷ h) = role_of name h

abbrev pub user_after : String → Command → Option (List UserRole) → Option (List UserRole)
user_after name (create_user n pwd roles) old = if n == name then some roles else old
user_after name (drop_user n) old = if n == name then none else old
user_after name _ old = old

abbrev pub user_of : String → History → Option (List UserRole)
user_of name [] = none
user_of name (ran c none ∷ h) = user_after name c (user_of name h)
user_of name (_ ∷ h) = user_of name h
