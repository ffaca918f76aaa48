-- ===== src/ClickHouse/Perms/Performed.antt =====
-- What a successful applyPerms of the ClickHouse provider has done.
use mathlib.Core.List.{append-nil}
use bindings.Common.{String, ◌≡◌, Bool, true, false, List, [], ◌∷◌, ◌==◌, if◌then◌else◌, arith}
use bindings.Exec.{ok}
use bindings.Sdk.{Sdk, GrantType, read, create, full, other, Grant}
use bindings.Sql.{History, Server, exec_context, query_row}
use bindings.Sql.Grants.{
  Action, did, missed, actions, Settles, IsSettled, apply_each-IsSettled_of_operation,
}
use bindings.Sql.Perms.{parse_operation}
use bindings.ClickHouse.{ClickHouse, full_db_privileges, full_table_privileges}
use bindings.ClickHouse.Perms.{db_scope, table_scope, statement, apply_grant, apply_perms}

module _ (sdk : Sdk) where
  abbrev is_everywhere : Grant → Bool
  is_everywhere g = g.grant_target == sdk.grant_target_all

  -- The privileges that a grant stands for.
  abbrev pub privileges : GrantType → Bool → String
  privileges read everywhere = "SELECT"
  privileges create everywhere = "CREATE TABLE, CREATE VIEW"
  privileges full everywhere = if everywhere then full_db_privileges else full_table_privileges
  privileges (other _) everywhere = ""

  -- The objects that a grant covers: `create` has no table-level form.
  abbrev pub scope : String → Grant → String
  scope database g = elim g.grant_type [
    | create ↦ db_scope sdk database
    | _ ↦ if is_everywhere g then db_scope sdk database else table_scope sdk database g.grant_target
  ]

  -- When a grant may be reported as applied, and when it may be passed over: a type that the
  -- provider does not know, or a grant (never a revoke) of one table.
  abbrev pub Possible : Bool → Grant → Bool → Type 0
  Possible is_grant g applied = elim g.grant_type [
    | other _ ↦ applied ≡ false
    | create ↦ applied ≡ true
    | _ ↦ elim applied [ true ↦ Unit | false ↦ (is_grant ≡ true) × (is_everywhere g ≡ false) ]
  ]

  -- What it does: its one statement, or the lookup that did not find the table; a known type that
  -- is applied to one table is looked up before, and that leaves no action.
  abbrev pub effect : ClickHouse → Bool → String → String → Grant → Bool → List Action
  effect b is_grant database role g true =
      did (
        statement sdk b is_grant role (privileges g.grant_type (is_everywhere g))
          (scope database g))
      ∷ []
  effect b is_grant database role g false = elim g.grant_type [
    | other _ ↦ []
    | _ ↦ missed (database ∷ g.grant_target ∷ []) ∷ []
  ]

  module _ (server : Server) (b : ClickHouse) where
    apply_grant-Settles :
        (is_grant : Bool) (database role : String) (g : Grant) (h : History)
        → Settles
            (Possible is_grant)
            (effect b is_grant database role)
            (actions h)
            g
            (apply_grant sdk server b is_grant database role g h)
    unfolding apply_grant exec_context query_row
    apply_grant-Settles is_grant database role g h = ground (arith, append-nil (actions h))

-- An applyPerms that returns no error had a valid operation, and settled every grant in order:
-- each grant of a known type either executed just its one statement and is reported, or (only
-- when granting on one table) a lookup did not find the table and it is not; grants of other
-- types do nothing; and no other statement succeeded. A revoke of a known type is therefore never
-- passed over.
pub apply_perms-IsSettled :
    (sdk : Sdk) (server : Server) (b : ClickHouse) (operation database role : String)
    (grants grants_done : List Grant) (h h' : History)
    → apply_perms sdk server b operation grants database role h ≡ (ok grants_done, h')
    → (is_grant : Bool) × (parse_operation operation ≡ ok is_grant)
      × IsSettled
          (Possible sdk is_grant)
          (effect sdk b is_grant database role)
          (actions h)
          grants
          grants_done
          h'
unfolding apply_perms
apply_perms-IsSettled sdk server b operation database role grants grants_done h h' e =
    apply_each-IsSettled_of_operation (Possible sdk) (λ g. effect sdk b g database role)
      (λ g. apply_grant sdk server b g database role)
      (λ g. apply_grant-Settles sdk server b g database role) (parse_operation operation) grants h
      h' grants_done e
