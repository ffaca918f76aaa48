-- ===== src/MongoDb/Users/Roles.antt =====
-- What setUserGrants leaves of the role of a self-hosted account.
use bindings.Common.{some, get, eq_refl, arith, ◌≡◌, List, GoMap, String}
use bindings.Exec.{err, ok, Done, Result}
use bindings.MongoDb.Grants.{Privilege}
use bindings.MongoDb.Client.{role_of, History, run_command, Cluster}
use bindings.Sdk.{Grant, Sdk}
use bindings.MongoDb.Users.{set_role_privileges}
use bindings.MongoDb.Accounts.{MongoDb}
use bindings.MongoDb.Grants.Entitled.{any_entitled, allows}

module _ (sdk : Sdk) (cluster : Cluster) (b : MongoDb) where
  -- The role has the privileges after a success, and is as it was after an error.
  abbrev pub Sets : String → List Privilege → History → Result Done × History → Type 0
  Sets name privileges h (ok _, h') = role_of name h' ≡ some privileges
  Sets name privileges h (err _, h') = role_of name h' ≡ role_of name h

  pub set_role_privileges-Sets :
      (name : String) (privileges : List Privilege) (h : History)
      → Sets name privileges h (set_role_privileges sdk cluster b name privileges h)
  unfolding set_role_privileges run_command
  set_role_privileges-Sets name privileges h = ground (arith, eq_refl name)

  -- A role that was built for the grants.
  abbrev pub IsRoleFor : GoMap → List Grant → History → Type 0
  IsRoleFor account grants h =
      (privileges : List Privilege) × (role_of (get account "username") h ≡ some privileges)
      × ((t a : String) → allows privileges t a ≡ any_entitled sdk grants t a)

  abbrev pub SetsGrants : GoMap → List Grant → History → Result Done × History → Type 0
  SetsGrants account grants h (ok _, h') = IsRoleFor account grants h'
  SetsGrants account grants h (err _, h') =
      role_of (get account "username") h' ≡ role_of (get account "username") h
