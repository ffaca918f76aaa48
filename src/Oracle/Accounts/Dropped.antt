-- ===== src/Oracle/Accounts/Dropped.antt =====
-- What DeleteArtifact of the Oracle provider does.
use bindings.Common.{
  Bool-cases, ap, Option-cases, if◌then◌else◌, refl, none, [], eq_iff, ◌∷◌, arith, ◌⊎◌, ◌≡◌, ◌==◌,
  ◌≢◌, Bool, List, String, inl, inr,
}
use bindings.Exec.{pure, describe, continue, is_no_rows, is_ok, err, ok, Done, Result}
use bindings.Sql.Perms.{row_present}
use bindings.Oracle.Accounts.{drop_user_sql, delete_artifact, drop_user}
use bindings.Sdk.{ArtifactType, Sdk, user}
use bindings.Sql.Executions.{executions}
use mathlib.Core.List.{◌++◌}
use bindings.Sql.{History, Server, query_row, query_context, exec_context}
use mathlib.Core.Bool.{true, false}

-- The lookup of a user found no row.
abbrev pub is_missing : Result String → Bool
is_missing (ok _) = false
is_missing (err e) = is_no_rows e

named_test : (name : String) → name ≢ "" → (name == "") ≡ false
named_test name named = ground (arith, eq_iff name "")

module _ (sdk : Sdk) (server : Server) where
  -- A success dropped the user by its one statement, or found no user of the name.
  abbrev pub Drops : String → History → Result Done × History → Type 0
  Drops name h (ok _, h') =
      (executions h' ≡ executions h ++ ((drop_user_sql sdk server name, none) ∷ []))
      ⊎ ((executions h' ≡ executions h)
          × (is_missing
                (query_row server "SELECT 1 FROM all_users WHERE username = :1" (name ∷ []) h).0
              ≡ true))
  Drops name h (err _, h') = Unit

  after_lookup :
      (name : String) (h h1 : History) (found : Result String)
      → executions h1 ≡ executions h
      → (query_row server "SELECT 1 FROM all_users WHERE username = :1" (name ∷ []) h).0 ≡ found
      → (text drop_text : String)
      → Drops name h (
          continue
            (row_present text found)
            (λ exists.
              if exists
              then describe drop_text (exec_context server (drop_user_sql sdk server name))
              else pure tt)
            h1)
  unfolding exec_context
  after_lookup name h h1 (ok row) quiet looked text drop_text =
      elim (Option-cases (server.exec h1 (drop_user_sql sdk server name))) [
        | inl fine ↦
            rw fine (inl (ap (λ l. l ++ ((drop_user_sql sdk server name, none) ∷ [])) quiet))
        | inr (_, failed) ↦ rw failed tt
      ]
  after_lookup name h h1 (err e) quiet looked text drop_text = elim (Bool-cases (is_no_rows e)) [
    | inl missing ↦ rw missing (inr (quiet, rw looked missing))
    | inr other ↦ rw other tt
  ]

  lookup-executions :
      (text : String) (args : List String) (h : History)
      → executions (query_row server text args h).1 ≡ executions h
  unfolding query_row query_context
  lookup-executions text args h = ground arith

  drop_user-Drops : (name : String) (h : History) → Drops name h (drop_user sdk server name h)
  unfolding drop_user
  drop_user-Drops name h = after_lookup name h _ _ (lookup-executions _ _ h) refl _ _

  -- DeleteArtifact of a user either sends its drop, which the server accepts, or finds no user of
  -- that name, or returns an error; a repeated deletion is therefore harmless. An artifact of any
  -- other type is refused and the server is left alone.
  pub delete_artifact-Drops :
      (kind : ArtifactType) (name : String) (h : History)
      → name ≢ ""
      → let out = delete_artifact sdk server (record { kind = kind; name = name }) h in
        ((kind ≡ user) × Drops name h out) ⊎ ((is_ok out.0 ≡ false) × (out.1 ≡ h))
  unfolding delete_artifact
  delete_artifact-Drops user name h named =
      inl (refl, rw (named_test name named) (drop_user-Drops name h))
  delete_artifact-Drops _ name h named = inr (ground arith, ground arith)
