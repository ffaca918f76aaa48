-- ===== src/Oracle/Perms/Objects.antt =====
-- The statements of a schema-wide grant of the Oracle provider, one for every listed object.
use bindings.Sql.Does.{Does-if, Does-weaken, Does-pure, Does-bind, Does}
use bindings.Sql.Statements.{Does-inspect, Does-ask}
use bindings.Common.{
  arith, refl, none, inr, ◌∷◌, inl, some, true, ◌++◌, [], false, if◌then◌else◌, Bool-cases, ◌≡◌,
  Option, ◌==◌, List, ℕ, Bool, String,
}
use bindings.Exec.{answered, ok, Done, GoError, Result}
use bindings.Oracle.Perms.{
  tolerating, statement, passes_over, collect, apply, list_schema_objects, apply_all,
  apply_schema_wide, SchemaObjects,
}
use bindings.Oracle.{sequence_missing, table_not_found}
use bindings.Sql.Rows.{collected}
use bindings.Sql.Executions.{Execution}
use bindings.Sql.{History, Cursor, Server}
use bindings.Sdk.{Sdk}
use mathlib.Core.List

module _ (sdk : Sdk) (server : Server) (to_upper : String → String) (schema user : String)
    (is_grant : Bool) where
  -- The server accepted the statement, or its error is one that is passed over.
  abbrev pub IsPassed : ℕ → Option GoError → Type 0
  IsPassed missing_code none = Unit
  IsPassed missing_code (some e) =
      passes_over sdk server to_upper is_grant schema user missing_code e ≡ true

  -- One statement for every object, in order.
  abbrev pub EachObject : String → ℕ → List String → List Execution → Type 0
  EachObject privs missing_code [] es = es ≡ []
  EachObject privs missing_code (object ∷ objects) es =
      (answer : Option GoError) × IsPassed missing_code answer
      × (rest : List Execution) × EachObject privs missing_code objects rest
      × (es ≡ (statement sdk is_grant schema user privs object, answer) ∷ rest)

  -- The names that the server listed for a query, at some time.
  abbrev pub Listed : String → List String → Type 0
  Listed query names =
      (h : History) × (collected (λ row. row 0) ("error listing objects in schema " ++ schema)
          ("error reading objects in schema " ++ schema) (server.query h query (schema ∷ []))
        ≡ ok names)

  -- Without privileges for a class nothing is executed for it.
  abbrev pub ForClass : String → ℕ → List String → List Execution → Type 0
  ForClass privs missing_code objects es =
      if privs == "" then es ≡ [] else EachObject privs missing_code objects es

  abbrev pub IsListed : SchemaObjects → Type 0
  IsListed objects =
      Listed "SELECT table_name FROM all_tables WHERE owner = :1" objects.tables
      × Listed "SELECT view_name FROM all_views WHERE owner = :1" objects.views
      × Listed "SELECT sequence_name FROM all_sequences WHERE sequence_owner = :1" objects.sequences

  -- Every object that was listed, class by class.
  abbrev pub SchemaWide : String → String → String → List Execution → Type 0
  SchemaWide table_privs view_privs sequence_privs es =
      (objects : SchemaObjects) × IsListed objects
      × (e1 e2 e3 : List Execution) × ForClass table_privs table_not_found objects.tables e1
      × ForClass view_privs table_not_found objects.views e2
      × ForClass sequence_privs sequence_missing objects.sequences e3
      × (es ≡ List.◌++◌ e1 (List.◌++◌ e2 e3))

  pub passed :
      (missing_code : ℕ) (object : String) (answer : Option GoError) (a : Done)
      → tolerating sdk server to_upper is_grant schema user missing_code object (answered answer)
        ≡ ok a
      → IsPassed missing_code answer
  passed missing_code object none a e = tt
  passed missing_code object (some _) a e = ground arith

  apply-Each :
      (privs : String) (missing_code : ℕ) (object : String)
      → (privs == "") ≡ false
      → Does
          (λ _ es.
            (answer : Option GoError) × IsPassed missing_code answer
            × (es ≡ (statement sdk is_grant schema user privs object, answer) ∷ []))
          (apply sdk server to_upper is_grant schema user privs missing_code object)
  unfolding apply
  apply-Each privs missing_code object asked =
      Does-if _ (privs == "") (λ e. cc)
        (λ _.
          Does-inspect server _
            (tolerating sdk server to_upper is_grant schema user missing_code object) _
            (λ answer a e. (answer, passed missing_code object answer a e, refl)))

  apply_all-Each :
      (privs : String) (missing_code : ℕ) (objects : List String)
      → (privs == "") ≡ false
      → Does
          (λ _. EachObject privs missing_code objects)
          (apply_all sdk server to_upper is_grant schema user privs missing_code objects)
  unfolding apply_all
  apply_all-Each privs missing_code [] asked = Does-pure _ tt refl
  apply_all-Each privs missing_code (object ∷ objects) asked =
      Does-bind _ _ _ _ (apply-Each privs missing_code object asked) (λ _ es (answer, fine, e).
        Does-weaken (λ _. EachObject privs missing_code objects) _ _
          (λ _ rest each. (answer, fine, rest, each, rw e refl))
          (apply_all-Each privs missing_code objects asked))

  apply_all-none :
      (privs : String) (missing_code : ℕ) (objects : List String)
      → (privs == "") ≡ true
      → Does
          (λ _ es. es ≡ [])
          (apply_all sdk server to_upper is_grant schema user privs missing_code objects)
  unfolding apply_all apply
  apply_all-none privs missing_code [] empty = Does-pure _ tt refl
  apply_all-none privs missing_code (object ∷ objects) empty =
      rw empty (apply_all-none privs missing_code objects empty)

  apply_all-ForClass :
      (privs : String) (missing_code : ℕ) (objects : List String)
      → Does
          (λ _. ForClass privs missing_code objects)
          (apply_all sdk server to_upper is_grant schema user privs missing_code objects)
  apply_all-ForClass privs missing_code objects = elim (Bool-cases (privs == "")) [
    | inl empty ↦
        Does-weaken (λ _ es. es ≡ []) _ _ (λ _ es e. rw empty e)
          (apply_all-none privs missing_code objects empty)
    | inr asked ↦
        Does-weaken (λ _. EachObject privs missing_code objects) _ _ (λ _ es e. rw asked e)
          (apply_all-Each privs missing_code objects asked)
  ]

  abbrev reading : Result Cursor → Result (List String)
  reading =
      collected (λ row. row 0) ("error listing objects in schema " ++ schema)
        ("error reading objects in schema " ++ schema)

  list_schema_objects-IsListed :
      Does
        (λ objects es. (es ≡ []) × IsListed objects)
        (list_schema_objects sdk server to_upper schema)
  unfolding list_schema_objects collect
  list_schema_objects-IsListed =
      Does-ask server _ reading "SELECT table_name FROM all_tables WHERE owner = :1" (schema ∷ []) _
        (λ tables h1 e1.
          Does-ask server _ reading "SELECT view_name FROM all_views WHERE owner = :1" (schema ∷ [])
            _
            (λ views h2 e2.
              Does-ask server _ reading
                "SELECT sequence_name FROM all_sequences WHERE sequence_owner = :1" (schema ∷ []) _
                (λ sequences h3 e3. Does-pure _ _ (refl, ((h1, e1), (h2, e2), (h3, e3))))))

  pub apply_schema_wide-SchemaWide :
      (table_privs view_privs sequence_privs : String)
      → Does
          (λ _. SchemaWide table_privs view_privs sequence_privs)
          (apply_schema_wide sdk server to_upper is_grant schema user table_privs view_privs
            sequence_privs)
  unfolding apply_schema_wide
  apply_schema_wide-SchemaWide t v s =
      Does-bind (λ objects es. (es ≡ []) × IsListed objects) _ _ _ list_schema_objects-IsListed
        (λ objects es (quiet, listed). rw quiet (
          Does-bind _ _ _ _ (apply_all-ForClass t table_not_found objects.tables) (λ _ e1 tables.
            Does-bind _ _ _ _ (apply_all-ForClass v table_not_found objects.views) (λ _ e2 views.
              Does-weaken (λ _. ForClass s sequence_missing objects.sequences) _ _
                (λ _ e3 sequences. (objects, listed, e1, e2, e3, tables, views, sequences, refl))
                (apply_all-ForClass s sequence_missing objects.sequences)))))
