-- ===== src/Snowflake/Perms/Case.antt =====
-- The letter case of the name in an object's statement.
use bindings.Common.{refl, some, true, ◌≡◌, List, Bool, String}
use bindings.Snowflake.Perms.{object_scope, has_name, statement, match_name}
use bindings.Snowflake.{is_unquoted_ident, quote_ident, Snowflake}
use bindings.GoText.{GoText}
use bindings.Sdk.{Sdk}

quote_ident-ignores_case :
    (sdk : Sdk) (text : GoText) (name : String)
    → is_unquoted_ident name ≡ true
    → is_unquoted_ident (text.to_upper name) ≡ true
    → text.to_upper (text.to_upper name) ≡ text.to_upper name
    → quote_ident sdk text name ≡ quote_ident sdk text (text.to_upper name)
unfolding quote_ident
quote_ident-ignores_case sdk text name plain upper_plain idem =
    rw (quote_ident, plain, upper_plain, idem) refl

module _ (sdk : Sdk) (text : GoText) (b : Snowflake) (schema : String) where
  -- A table that resolveTableOrView finds under a plain mixed-case name gets the statement of the
  -- table with the upper-case name: for a target that matches unquotedIdentRegex, as its upper case
  -- then does, applyPerms sends the same GRANT or REVOKE for the found name and for its upper case.
  pub statement-ignores_case :
      (is_grant is_view : Bool) (role privs target : String) (names : List String)
      → has_name names target ≡ true
      → is_unquoted_ident target ≡ true
      → is_unquoted_ident (text.to_upper target) ≡ true
      → text.to_upper (text.to_upper target) ≡ text.to_upper target
      → (match_name text names target is_view ≡ some (record { name = target; is_view = is_view }))
        × (statement sdk text b schema is_grant role privs
              (object_scope sdk text b schema is_view target)
            ≡ statement sdk text b schema is_grant role privs
                (object_scope sdk text b schema is_view (text.to_upper target)))
  unfolding match_name
  statement-ignores_case is_grant is_view role privs target names found plain upper_plain idem =
      (rw found refl, rw (quote_ident-ignores_case sdk text target plain upper_plain idem) refl)
