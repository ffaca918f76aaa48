-- ===== src/SqlServer/Schemas/Order.antt =====
-- The order of the drops of dropSchemaCascade of sqlserver/sqlserver_binding.go.
use bindings.Sql.Lookups.{HasRow, row_present-HasRow}
use bindings.Exec.{pure, ok, Done, Result}
use bindings.Sql.{Cursor, History, Server}
use bindings.Common.{
  if◌then◌else◌, true, Bool, false, inl, inr, refl, ◌⊎◌, ◌++◌, map, [], ◌∷◌, ◌≡◌, List, String,
}
use bindings.Sql.Statements.{Does-ask_row, Does-last, Does-run, Does-ask}
use bindings.Sql.Does.{Does-describe, Does-bind, Does-weaken, fine, Does-pure, Does, Post}
use bindings.Sql.Perms.{row_present}
use bindings.Sql.Executions.{executions, Execution}
use bindings.SqlServer.Schemas.{
  drop_object_sql, drop_schema_sql, drop_foreign_key_sql, list_foreign_keys, ForeignKey,
  list_objects, drop_class, drop_contents, drop_objects, drop_schema_cascade, drop_foreign_keys,
}
use bindings.Sql.Rows.{collected}
use bindings.Sdk.{Sdk}
use mathlib.Core.List

module _ (sdk : Sdk) (server : Server) (schema_name : String) where
  abbrev reading : Result Cursor → Result (List String)
  reading =
      collected (λ row. row 0) ("error listing objects in schema " ++ schema_name)
        ("error reading objects in schema " ++ schema_name)

  abbrev objects_query : String
  objects_query = "SELECT name FROM sys.objects WHERE schema_id = SCHEMA_ID(@p1) AND type = @p2"

  abbrev reading_keys : Result Cursor → Result (List ForeignKey)
  reading_keys =
      collected (λ row. record { fk_name = row 0; table_name = row 1 })
        ("error listing foreign keys in schema " ++ schema_name)
        ("error reading foreign keys in schema " ++ schema_name)

  abbrev keys_query : String
  keys_query =
      "\n\t\tSELECT fk.name, o.name FROM sys.foreign_keys fk\n\t\tJOIN sys.objects o ON fk.parent_object_id = o.object_id\n\t\tWHERE o.schema_id = SCHEMA_ID(@p1)"

  -- The foreign keys that the server listed, at some time.
  abbrev pub KeysListed : List ForeignKey → Type 0
  KeysListed fks =
      (h : History) × (reading_keys (server.query h keys_query (schema_name ∷ [])) ≡ ok fks)

  -- The names that the server listed for a type of object, at some time.
  abbrev pub Listed : String → List String → Type 0
  Listed object_type names =
      (h : History) × (reading (server.query h objects_query (schema_name ∷ object_type ∷ []))
        ≡ ok names)

  abbrev pub key_drops : List ForeignKey → List Execution
  key_drops fks = map (λ fk. fine (drop_foreign_key_sql sdk schema_name fk)) fks

  abbrev pub object_drops : String → List String → List Execution
  object_drops drop_keyword names =
      map (λ name. fine (drop_object_sql sdk schema_name drop_keyword name)) names

  -- The foreign keys, the views, the tables, the sequences, and then the schema.
  abbrev pub InOrder : List Execution → Type 0
  InOrder es =
      (fks : List ForeignKey) × (views tables sequences : List String) × KeysListed fks
      × Listed "V" views
      × Listed "U" tables
      × Listed "SO" sequences
      × (es
          ≡ List.◌++◌ (key_drops fks) (
              List.◌++◌ (object_drops "VIEW" views) (
                List.◌++◌ (object_drops "TABLE" tables) (
                  List.◌++◌ (object_drops "SEQUENCE" sequences)
                    (fine (drop_schema_sql sdk schema_name) ∷ [])))))

  -- The server answered, at some time, whether the schema exists.
  abbrev pub Exists : Bool → Type 0
  Exists b = HasRow server "SELECT 1 FROM sys.schemas WHERE name = @p1" (schema_name ∷ []) b

  -- Nothing for a schema that the server does not have, else everything in order.
  abbrev pub Cascade : List Execution → Type 0
  Cascade es = ((es ≡ []) × Exists false) ⊎ (InOrder es × Exists true)

  drop_foreign_keys-all :
      (fks : List ForeignKey)
      → Does (λ _ es. es ≡ key_drops fks) (drop_foreign_keys sdk server schema_name fks)
  unfolding drop_foreign_keys
  drop_foreign_keys-all [] = Does-pure _ tt refl
  drop_foreign_keys-all (fk ∷ fks) = Does-run server _ _ _ _ (
      Does-weaken (λ _ es. es ≡ key_drops fks) _ _ (λ _ es e. rw e refl)
        (drop_foreign_keys-all fks))

  drop_objects-all :
      (drop_keyword : String) (names : List String)
      → Does
          (λ _ es. es ≡ object_drops drop_keyword names)
          (drop_objects sdk server schema_name drop_keyword names)
  unfolding drop_objects
  drop_objects-all drop_keyword [] = Does-pure _ tt refl
  drop_objects-all drop_keyword (name ∷ names) = Does-run server _ _ _ _ (
      Does-weaken (λ _ es. es ≡ object_drops drop_keyword names) _ _ (λ _ es e. rw e refl)
        (drop_objects-all drop_keyword names))

  abbrev Class : String → String → Post Done
  Class object_type drop_keyword _ es =
      (names : List String) × Listed object_type names × (es ≡ object_drops drop_keyword names)

  drop_class-all :
      (object_type drop_keyword : String)
      → Does
          (Class object_type drop_keyword)
          (drop_class sdk server schema_name object_type drop_keyword)
  unfolding drop_class list_objects
  drop_class-all object_type drop_keyword =
      Does-ask server (Class object_type drop_keyword) reading objects_query
        (schema_name ∷ object_type ∷ []) _
        (λ names h listed.
          Does-weaken (λ _ es. es ≡ object_drops drop_keyword names) _ _
            (λ _ es e. (names, (h, listed), e)) (drop_objects-all drop_keyword names))

  drop_contents-InOrder : Does (λ _. InOrder) (drop_contents sdk server schema_name)
  unfolding drop_contents list_foreign_keys
  drop_contents-InOrder =
      Does-ask server _ reading_keys keys_query (schema_name ∷ []) _ (λ fks h listed.
        Does-bind _ _ _ _ (drop_foreign_keys-all fks) (λ _ e1 keys.
          Does-bind _ _ _ _ (drop_class-all "V" "VIEW") (λ _ e2 (views, vs, v).
            Does-bind _ _ _ _ (drop_class-all "U" "TABLE") (λ _ e3 (tables, ts, t).
              Does-bind _ _ _ _ (drop_class-all "SO" "SEQUENCE") (λ _ e4 (sequences, ss, s).
                Does-describe _ _ _ (
                  Does-last server _ _ (
                    fks,
                    views,
                    tables,
                    sequences,
                    (h, listed),
                    vs,
                    ts,
                    ss,
                    rw (keys, v, t, s) refl,
                  )))))))

  answered-Cascade :
      (exists : Bool)
      → Exists exists
      → Does (λ _. Cascade) (if exists then drop_contents sdk server schema_name else pure tt)
  answered-Cascade true found =
      Does-weaken (λ _. InOrder) _ _ (λ _ es e. inr (e, found)) drop_contents-InOrder
  answered-Cascade false missing = Does-pure _ tt (inl (refl, missing))

  drop_schema_cascade-Cascade : Does (λ _. Cascade) (drop_schema_cascade sdk server schema_name)
  unfolding drop_schema_cascade
  drop_schema_cascade-Cascade =
      Does-ask_row server _ (row_present ("error checking schema " ++ schema_name)) _ _ _
        (λ exists h answer.
          answered-Cascade exists (row_present-HasRow server _ _ _ exists h answer))

-- A dropSchemaCascade that returns no error has executed nothing, and then the server answered that
-- there is no such schema, or the server answered that there is and it has dropped every foreign
-- key, then every view, every table and every sequence of the schema that the server listed, each
-- by one accepted statement and in that order, and last the schema, and nothing else.
pub drop_schema_cascade-InOrder :
    (sdk : Sdk) (server : Server) (schema_name : String) (h h' : History)
    → drop_schema_cascade sdk server schema_name h ≡ (ok tt, h')
    → (more : List Execution) × (executions h' ≡ List.◌++◌ (executions h) more)
      × Cascade sdk server schema_name more
drop_schema_cascade-InOrder sdk server schema_name h h' e =
    rw e at ((drop_schema_cascade-Cascade sdk server schema_name).at h)
