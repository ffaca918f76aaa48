-- ===== src/Snowflake/Perms.antt =====
-- applyPerms, resolveTableOrView and scanShowNames of snowflake/snowflake_binding.go.
pub mod Classes
pub mod Listing
pub mod Resolved
pub mod Performed
pub mod Case
use bindings.Snowflake.{full_table_privileges, quote_string, quote_ident, Snowflake}
use bindings.Exec.{
  fail, lift, pure, ◌>>=◌, describe, ◌>>◌, GoError, message, Exec, wrap_err, ◌>>-◌, err, ok, Result,
}
use bindings.Sql.Grants.{apply_each}
use bindings.Common.{
  not, ◌&&◌, ◌||◌, get, [], ◌==◌, suc, if◌then◌else◌, ◌++◌, ◌∷◌, Bool, Option, String, ℕ, List,
  some, none, true, false,
}
use bindings.Sql.Perms.{parse_operation, verb, inspect}
use bindings.Sql.{Row, History, Server, exec_context, query_context, Cursor}
use bindings.GoText.{GoText}
use bindings.Sdk.{Sdk, Grant, read, create, full, other}

module _ (sdk : Sdk) (text : GoText) (b : Snowflake) (schema : String) where
  abbrev pub quoted_schema : String
  quoted_schema =
      quote_ident sdk text (get b.service_config "database") ++ "." ++ quote_ident sdk text schema

  -- The statement that the closure `applyStmt` formats.
  unfoldable pub statement : Bool → String → String → String → String
  statement is_grant role privs scope =
      if is_grant
      then "GRANT " ++ privs ++ " ON " ++ scope ++ " TO ROLE " ++ quote_ident sdk text role
      else "REVOKE " ++ privs ++ " ON " ++ scope ++ " FROM ROLE " ++ quote_ident sdk text role

  abbrev pub schema_scope : String
  schema_scope = "SCHEMA " ++ quoted_schema

  -- One of `ALL` and `FUTURE`, for a class of objects.
  abbrev pub class_scope : String → String → String
  class_scope which class = which ++ " " ++ class ++ " IN SCHEMA " ++ quoted_schema

  abbrev pub object_scope : Bool → String → String
  object_scope is_view name =
      (if is_view then "VIEW" else "TABLE")
      ++ " "
      ++ quoted_schema
      ++ "."
      ++ quote_ident sdk text name

  unfoldable pub show_query : String → String → String
  show_query keyword target =
      "SHOW "
      ++ keyword
      ++ " LIKE "
      ++ quote_string sdk text target
      ++ " IN SCHEMA "
      ++ quoted_schema

-- The first column that is called "name".
unfoldable pub name_index : ℕ → List String → Option ℕ
name_index i [] = none
name_index i (column ∷ columns) =
    let rest = name_index (suc i) columns in if column == "name" then some i else rest

-- The loop of scanShowNames; a value of the column is a text.
unfoldable pub names_of : List (Result Row) → Option GoError → ℕ → Result (List String)
names_of [] none i = ok []
names_of [] (some e) i = err e
names_of (ok row ∷ rows) finish i = names_of rows finish i >>- λ names. ok (row i ∷ names)
names_of (err e ∷ rows) finish i = err e

abbrev pub read_names : Cursor → Option ℕ → Result (List String)
read_names c none = err (message "SHOW result has no name column")
read_names c (some i) = names_of c.rows c.finish i

-- `columns` is rows.Columns().
unfoldable pub scan_show_names : (Cursor → Result (List String)) → Cursor → Result (List String)
unfolding name_index names_of
scan_show_names columns c = columns c >>- λ names. read_names c (name_index 0 names)

abbrev pub shown : (Cursor → Result (List String)) → String → Result Cursor → Result (List String)
shown columns schema (ok c) =
    wrap_err ("error reading objects in schema " ++ schema) (scan_show_names columns c)
shown columns schema (err e) = err (GoError.wrap ("error listing objects in schema " ++ schema) e)

unfoldable pub has_name : List String → String → Bool
has_name [] name = false
has_name (n ∷ names) name = n == name || has_name names name

-- An object that a target names.
pub record Found : Type 0 where
  pub name : String
  pub is_view : Bool

-- The exact name first, then its upper case.
unfoldable pub match_name : GoText → List String → String → Bool → Option Found
unfolding has_name
match_name text names target is_view =
    if has_name names target
    then some (record { name = target; is_view = is_view })
    else if has_name names (text.to_upper target)
    then some (record { name = text.to_upper target; is_view = is_view })
    else none

module _ (sdk : Sdk) (text : GoText) (server : Server) (columns : Cursor → Result (List String))
    (b : Snowflake) (schema : String) where
  -- One round of the loop over the object classes.
  unfoldable pub show_objects : String → String → Exec History (List String)
  show_objects keyword target =
      inspect (shown columns schema)
        (query_context server (show_query sdk text b schema keyword target) [])

  unfoldable pub resolve_table_or_view : String → Exec History (Option Found)
  unfolding show_objects match_name
  resolve_table_or_view target = do
    tables ← show_objects "TABLES" target
    elim (match_name text tables target false) [
      | some found ↦ pure (some found)
      | none ↦ show_objects "VIEWS" target >>= λ views. pure (match_name text views target true)
    ]

  module _ (is_grant : Bool) (role : String) where
    unfoldable pub apply_stmt : String → String → Exec History Unit
    unfolding statement
    apply_stmt privs scope =
        exec_context server (statement sdk text b schema is_grant role privs scope)

    -- One round of the loop of the closure `schemaWide`.
    unfoldable pub apply_class : String → String → Exec History Unit
    unfolding apply_stmt
    apply_class privs class =
        if privs == ""
        then pure tt
        else apply_stmt privs (class_scope sdk text b schema "ALL" class)
          >> apply_stmt privs (class_scope sdk text b schema "FUTURE" class)

    unfoldable pub schema_wide : String → String → String → Exec History Unit
    unfolding apply_class
    schema_wide table_privs view_privs sequence_privs =
        apply_stmt "USAGE" (schema_scope sdk text b schema)
        >> (apply_class table_privs "TABLES"
            >> (apply_class view_privs "VIEWS" >> apply_class sequence_privs "SEQUENCES"))

    abbrev pub apply_found : String → Option Found → Exec History Bool
    apply_found privs none = pure false
    apply_found privs (some found) =
        apply_stmt "USAGE" (schema_scope sdk text b schema)
        >> (apply_stmt (if found.is_view then "SELECT" else privs)
              (object_scope sdk text b schema found.is_view found.name)
            >> pure true)

    unfoldable pub table_specific : String → String → Exec History Bool
    unfolding resolve_table_or_view apply_stmt
    table_specific target privs = resolve_table_or_view target >>= apply_found privs

    abbrev pub on_schema : String → String
    on_schema word = "error " ++ verb is_grant ++ " " ++ word ++ " privileges on schema " ++ schema

    abbrev pub on_table : String → String → String
    on_table word target =
        "error "
        ++ verb is_grant
        ++ " "
        ++ word
        ++ " privileges on table "
        ++ schema
        ++ "."
        ++ target

    -- One round of the loop; whether the grant is appended to `grantsDone`.
    unfoldable pub apply_grant : Grant → Exec History Bool
    unfolding schema_wide table_specific
    apply_grant g = elim g.grant_type [
      | read ↦
          if g.grant_target == sdk.grant_target_all
          then describe (on_schema "select") (schema_wide "SELECT" "SELECT" "") >> pure true
          else describe (on_table "select" g.grant_target) (table_specific g.grant_target "SELECT")
      | create ↦
          if is_grant && not (g.grant_target == "") && not (g.grant_target == sdk.grant_target_all)
          then fail (message "create grant on specific table is not supported")
          else describe (on_schema "create") (
              apply_stmt "USAGE, CREATE TABLE, CREATE VIEW, CREATE SEQUENCE"
                (schema_scope sdk text b schema))
            >> pure true
      | full ↦
          if g.grant_target == sdk.grant_target_all
          then describe (on_schema "full") (schema_wide full_table_privileges "SELECT" "USAGE")
            >> (describe (on_schema "create") (
                  apply_stmt "CREATE TABLE, CREATE VIEW, CREATE SEQUENCE"
                    (schema_scope sdk text b schema))
                >> pure true)
          else describe (on_table "full" g.grant_target)
              (table_specific g.grant_target full_table_privileges)
      | other _ ↦ pure false
    ]

unfoldable pub apply_perms :
    Sdk
    → GoText
    → Server
    → (Cursor → Result (List String))
    → Snowflake
    → String
    → List Grant
    → String
    → String
    → Exec History (List Grant)
apply_perms sdk text server columns b operation grants schema role = do
  is_grant ← lift (parse_operation operation)
  apply_each (apply_grant sdk text server columns b schema is_grant role) [] grants
