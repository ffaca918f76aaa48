-- ===== src/Sql/Perms.antt =====
-- What the applyPerms of the SQL providers share: the test on `operation`, and existence checks.
use bindings.Common.{
  not, ◌&&◌, ◌||◌, ◌≡◌, arith, String, ◌++◌, Bool, true, false, ◌==◌, if◌then◌else◌, in_quotes,
}
use bindings.Exec.{GoError, message, Result, ok, err, is_no_rows, Exec}
use bindings.Sql.{History}

-- `switch operation { … }`
unfoldable pub parse_operation : String → Result Bool
parse_operation operation =
    if operation == "grant"
    then ok true
    else if operation == "revoke"
    then ok false
    else err (
        message (
          "invalid grant operation "
          ++ in_quotes operation
          ++ ": want "
          ++ in_quotes "grant"
          ++ " or "
          ++ in_quotes "revoke"))

-- The word `verb` of the error texts.
abbrev pub verb : Bool → String
verb is_grant = if is_grant then "granting" else "revoking"

-- A `Scan` that found no row is an answer, any other error is passed on.
abbrev pub row_present : String → Result String → Result Bool
row_present text (ok _) = ok true
row_present text (err e) = if is_no_rows e then ok false else err (GoError.wrap text e)

-- A run whose error is inspected rather than returned.
abbrev pub inspect : {A B : Type 0} → (Result A → Result B) → Exec History A → Exec History B
inspect f m h = let (r, h') = m h in (f r, h')

-- The guard of a create grant.
pub not_specific :
    (is_grant is_empty is_all : Bool)
    → (is_grant && not is_empty && not is_all) ≡ false
    → (not is_grant || (is_empty || is_all)) ≡ true
not_specific is_grant is_empty is_all = ground arith
