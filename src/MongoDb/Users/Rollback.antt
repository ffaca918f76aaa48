-- ===== src/MongoDb/Users/Rollback.antt =====
-- The callback of ApplyGrants on a self-hosted service.
use bindings.Common.{◌⊎◌, get, ◌≡◌, List, GoMap}
use bindings.Exec.{GoError, err, Exec, ok, Done, Result}
use bindings.MongoDb.Client.{role_of, History, Cluster}
use bindings.Sdk.{Grant, Sdk}
use bindings.MongoDb.Accounts.{MongoDb}
use bindings.MongoDb.Users.Roles.{IsRoleFor}

module _ (sdk : Sdk) (cluster : Cluster) (b : MongoDb) where
  -- The role is the new one after a success. After an error it is as it was before the call, or
  -- it is the one for the grants that were applied before, or it is the new one and the error
  -- says that the rollback failed too.
  abbrev pub Rebuilds : GoMap → List Grant → List Grant → History → Result Done × History → Type 0
  Rebuilds account before granted h (ok _, h') = IsRoleFor sdk cluster b account granted h'
  Rebuilds account before granted h (err e, h') =
      (role_of (get account "username") h' ≡ role_of (get account "username") h)
      ⊎ (IsRoleFor sdk cluster b account before h'
          ⊎ ((first : GoError) × (second : GoError) × (e ≡ GoError.joined first second)
              × IsRoleFor sdk cluster b account granted h'))
