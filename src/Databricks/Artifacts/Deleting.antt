-- ===== src/Databricks/Artifacts/Deleting.antt =====
-- DeleteArtifact of the Databricks provider.
use bindings.Exec.{Exec, err, ok, Done, Result, GoError}
use bindings.Sdk.{schema, user, Artifact, Sdk}
use bindings.Sql.{executed}
use bindings.Databricks.Workspace.{deleted, listed, Call, World, Workspace, IntLib, Principal}
use bindings.Databricks.Artifacts.{drop_schema_sql}
use bindings.Common.{true, none, some, false, ◌≡◌, All, ◌==◌, ◌∷◌, Option, String, List}
use bindings.Databricks.{Databricks}
use bindings.GoText.{GoText}
use mathlib.Core.List

-- The principal that a lookup by name gives, or that the name is not there.
abbrev pub IsFound : List Principal → String → Option Principal → Type 0
IsFound ps name none = All (λ sp. (sp.display_name == name) ≡ false) ps
IsFound ps name (some sp) =
    (before after : List Principal) × (ps ≡ List.◌++◌ before (sp ∷ after))
    × (sp.display_name ≡ name)

module _ {Int : Type 0} (sdk : Sdk) (text : GoText) (ints : IntLib Int) (ws : Workspace Int)
    (b : Databricks) where
  -- The call for a deletion was accepted, or its error says that the principal is gone.
  abbrev pub IsGone : Option GoError → Type 0
  IsGone none = Unit
  IsGone (some e) = ws.is_missing e ≡ true

  -- What a lookup answered, and the deletion that it led to.
  abbrev pub UserDeleted : String → List (Call Int) → List (Call Int) → Type 0
  UserDeleted name before calls =
      (filter : String) × (ps : List Principal) × (found : Option Principal) × IsFound ps name found
      × elim found [
        | none ↦ calls ≡ listed filter (ok ps) ∷ before
        | some sp ↦
            (answer : Option GoError) × IsGone answer
            × (calls ≡ deleted sp.id answer ∷ listed filter (ok ps) ∷ before)
      ]

  -- One kind of artifact is on the REST plane and one on the SQL plane; there is no other.
  abbrev pub Deleted : Artifact → World Int → World Int → Type 0
  Deleted a w w' = elim a.kind [
    | user ↦ (w'.session ≡ w.session) × UserDeleted a.name w.calls w'.calls
    | schema ↦
        (w'.calls ≡ w.calls)
        × (w'.session.artifacts ≡ w.session.artifacts)
        × (w'.session.history
            ≡ executed (drop_schema_sql sdk text ints ws b a.name) none ∷ w.session.history)
    | _ ↦ ⊥
  ]

  abbrev Ends : Artifact → World Int → Result Done × World Int → Type 0
  Ends a w (ok _, w') = Deleted a w w'
  Ends a w (err _, w') = Unit
