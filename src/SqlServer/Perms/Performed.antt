-- ===== src/SqlServer/Perms/Performed.antt =====
-- What a successful applyPerms of the SQL Server provider has done.
use bindings.SqlServer.{full_privileges}
use bindings.Sql.Grants.{
  actions, apply_each-IsSettled_of_operation, IsSettled, Settles, Action, did, missed,
}
use bindings.SqlServer.Perms.{create_sql, object_sql, schema_sql, apply_grant, apply_perms}
use mathlib.Core.List.{append-nil, append_assoc}
use bindings.Common.{arith, ◌∷◌, [], if◌then◌else◌, ◌==◌, String, ◌≡◌, Bool, List, true, false}
use bindings.Sql.Perms.{parse_operation}
use bindings.Exec.{ok}
use bindings.Sql.{History, Server, exec_context, query_row}
use bindings.Sdk.{Sdk, GrantType, Grant, read, create, full, other}

module _ (sdk : Sdk) where
  abbrev is_everywhere : Grant → Bool
  is_everywhere g = g.grant_target == sdk.grant_target_all

  -- The statements of a grant that is applied.
  abbrev pub statements : Bool → String → String → GrantType → Bool → String → List String
  statements is_grant schema user read everywhere target =
      (if everywhere
        then schema_sql sdk is_grant schema user "SELECT"
        else object_sql sdk is_grant schema user "SELECT" target)
      ∷ []
  statements is_grant schema user create everywhere target =
      create_sql sdk is_grant schema user ∷ schema_sql sdk is_grant schema user "ALTER" ∷ []
  statements is_grant schema user full true target =
      schema_sql sdk is_grant schema user full_privileges
      ∷ create_sql sdk is_grant schema user
      ∷ schema_sql sdk is_grant schema user "ALTER"
      ∷ []
  statements is_grant schema user full false target =
      object_sql sdk is_grant schema user full_privileges target ∷ []
  statements is_grant schema user (other _) everywhere target = []

  abbrev pub all_did : List String → List Action
  all_did [] = []
  all_did (stmt ∷ stmts) = did stmt ∷ all_did stmts

  -- A grant is passed over if its type is unknown, or if it is about one table.
  abbrev pub Possible : Grant → Bool → Type 0
  Possible g applied = elim g.grant_type [
    | other _ ↦ applied ≡ false
    | create ↦ applied ≡ true
    | _ ↦ elim applied [ true ↦ Unit | false ↦ is_everywhere g ≡ false ]
  ]

  abbrev pub effect : Bool → String → String → Grant → Bool → List Action
  effect is_grant schema user g true =
      all_did (statements is_grant schema user g.grant_type (is_everywhere g) g.grant_target)
  effect is_grant schema user g false = elim g.grant_type [
    | other _ ↦ []
    | _ ↦ missed (schema ∷ g.grant_target ∷ []) ∷ []
  ]

  module _ (server : Server) where
    apply_grant-Settles :
        (is_grant : Bool) (schema user : String) (g : Grant) (h : History)
        → Settles Possible
            (effect is_grant schema user)
            (actions h)
            g
            (apply_grant sdk server is_grant schema user g h)
    unfolding apply_grant exec_context query_row
    apply_grant-Settles is_grant schema user g h =
        let f = did (schema_sql sdk is_grant schema user full_privileges) in
        let c = did (create_sql sdk is_grant schema user) in
        let a = did (schema_sql sdk is_grant schema user "ALTER") in
        ground (
          arith,
          append-nil (actions h),
          append_assoc (actions h) (c ∷ []) (a ∷ []),
          append_assoc (actions h) (f ∷ []) (c ∷ []),
          append_assoc (actions h) (f ∷ c ∷ []) (a ∷ []),
        )

-- An applyPerms of the SQL Server provider that returns no error had a valid operation, and settled
-- every grant in order: each grant of a known type either executed just its statements, all of
-- them with success, and is reported, or is about one table that a lookup did not find, and is
-- not; grants of other types do nothing; and no other statement succeeded.
pub apply_perms-IsSettled_of_server :
    (sdk : Sdk) (server : Server) (operation schema user : String) (grants grants_done : List Grant)
    (h h' : History)
    → apply_perms sdk server operation grants schema user h ≡ (ok grants_done, h')
    → (is_grant : Bool) × (parse_operation operation ≡ ok is_grant)
      × IsSettled (Possible sdk) (effect sdk is_grant schema user) (actions h) grants grants_done h'
unfolding apply_perms
apply_perms-IsSettled_of_server sdk server operation schema user grants grants_done h h' e =
    apply_each-IsSettled_of_operation (λ _. Possible sdk) (λ g. effect sdk g schema user)
      (λ g. apply_grant sdk server g schema user)
      (λ g. apply_grant-Settles sdk server g schema user) (parse_operation operation) grants h h'
      grants_done e
