-- ===== src/Snowflake/Perms/Resolved.antt =====
-- What resolveTableOrView of the Snowflake provider has seen when it answers.
use bindings.Snowflake.Perms.Listing.{IsListing, shown-IsListing}
use bindings.Common.{
  eq_refl, arith, eq_iff, sym, ◌||◌, refl, inr, ◌∷◌, false, inl, true, ◌==◌, ◌⊎◌, none, [], some,
  ◌≡◌, Option, if◌then◌else◌, List, Bool, String,
}
use bindings.Sql.Statements.{Does-ask}
use bindings.Sdk.{Sdk}
use bindings.Sql.Does.{Does-pure, Does}
use bindings.Snowflake.{Snowflake}
use bindings.Snowflake.Perms.{
  show_query, shown, show_objects, has_name, Found, resolve_table_or_view, match_name,
}
use bindings.Exec.{◌>>=◌, pure, ok, Result}
use bindings.Sql.{History, Cursor, Server}
use bindings.GoText.{GoText}
use mathlib.Core.List.{Memᴰ}
use mathlib.Core.List.Memᴰ.{head, tail}

module _ (sdk : Sdk) (text : GoText) (server : Server) (columns : Cursor → Result (List String))
    (b : Snowflake) (schema : String) where
  -- The names that the server answered, at some time, to the SHOW command for a target: the values
  -- in the column that is called "name".
  abbrev Shown : String → String → List String → Type 0
  Shown keyword target names =
      (h : History) × (c : Cursor) × (server.query h (show_query sdk text b schema keyword target)
          []
        ≡ ok c)
      × IsListing columns c names

  shown-Shown :
      (keyword target : String) (names : List String) (h : History)
      → shown columns schema (server.query h (show_query sdk text b schema keyword target) [])
        ≡ ok names
      → Shown keyword target names
  shown-Shown keyword target names h answer =
      let (c, same, listing) = shown-IsListing columns schema _ names answer in
      (h, c, same, listing)

  -- Neither the target nor its upper case is among them.
  abbrev Lacks : List String → String → Type 0
  Lacks names target = (¬ Memᴰ target names) × (¬ Memᴰ (text.to_upper target) names)

  -- The object of a target: its name was shown, exactly or else in upper case, among the tables,
  -- or else among the views.
  abbrev Chosen : List String → String → String → Type 0
  Chosen names target name =
      Memᴰ name names × ((name ≡ target) ⊎ ((name ≡ text.to_upper target) × (¬ Memᴰ target names)))

  abbrev pub Resolved : String → Option Found → Type 0
  Resolved target none =
      (tables views : List String) × Shown "TABLES" target tables
      × Lacks tables target
      × Shown "VIEWS" target views
      × Lacks views target
  Resolved target (some found) = elim found.is_view [
    | false ↦
        (tables : List String) × Shown "TABLES" target tables × Chosen tables target found.name
    | true ↦
        (tables views : List String) × Shown "TABLES" target tables
        × Lacks tables target
        × Shown "VIEWS" target views
        × Chosen views target found.name
  ]

  -- What has_name answers.
  Answered : List String → String → Bool → Type 0
  Answered names name true = Memᴰ name names
  Answered names name false = ¬ Memᴰ name names

  Answered-later :
      (n name : String) (names : List String) (same rest : Bool)
      → (n == name) ≡ same
      → Answered names name rest
      → Answered (n ∷ names) name (same || rest)
  unfolding Answered
  Answered-later n name names true rest e answered = head (sym ((eq_iff n name).0 e))
  Answered-later n name names false true e found = tail found
  Answered-later n name names false false e missing = λ m. absent m
    where
      absurd : name ≡ n → ⊥
      absurd same = ground (arith, eq_iff n name, eq_refl n)

      absent : Memᴰ name (n ∷ names) → ⊥
      absent (head same) = absurd same
      absent (tail m) = missing m

  has_name-Answered :
      (names : List String) (name : String) → Answered names name (has_name names name)
  unfolding has_name Answered
  has_name-Answered [] name = λ m. elim m [ ]
  has_name-Answered (n ∷ names) name =
      Answered-later n name names (n == name) _ refl (has_name-Answered names name)

  -- What the names of one class decide.
  abbrev Matched : List String → String → Bool → Option Found → Type 0
  Matched names target is_view none = Lacks names target
  Matched names target is_view (some found) =
      (found.is_view ≡ is_view) × Chosen names target found.name

  chosen :
      (names : List String) (target : String) (is_view exact upper : Bool)
      → Answered names target exact
      → Answered names (text.to_upper target) upper
      → Matched names target is_view (
          if exact
          then some (record { name = target; is_view = is_view })
          else if upper
          then some (record { name = text.to_upper target; is_view = is_view })
          else none)
  unfolding Answered
  chosen names target is_view true upper e u = (refl, (e, inl refl))
  chosen names target is_view false true e u = (refl, (u, inr (refl, e)))
  chosen names target is_view false false e u = (e, u)

  match_name-Matched :
      (names : List String) (target : String) (is_view : Bool)
      → Matched names target is_view (match_name text names target is_view)
  unfolding match_name
  match_name-Matched names target is_view =
      chosen names target is_view (has_name names target) (has_name names (text.to_upper target))
        (has_name-Answered names target) (has_name-Answered names (text.to_upper target))

  table_of :
      (tables : List String) (target : String) (found : Found)
      → Shown "TABLES" target tables
      → (found.is_view ≡ false)
      → Chosen tables target found.name
      → Resolved target (some found)
  table_of tables target found listed e m = rw e (tables, listed, m)

  view_of :
      (tables views : List String) (target : String) (found : Option Found)
      → Shown "TABLES" target tables
      → Lacks tables target
      → Shown "VIEWS" target views
      → Matched views target true found
      → Resolved target found
  view_of tables views target none listed lacks listed' m =
      (tables, views, listed, lacks, listed', m)
  view_of tables views target (some found) listed lacks listed' (e, m) =
      rw e (tables, views, listed, lacks, listed', m)

  pub resolve-Resolved :
      (target : String)
      → Does
          (λ found es. (es ≡ []) × Resolved target found)
          (resolve_table_or_view sdk text server columns b schema target)
  unfolding resolve_table_or_view show_objects
  resolve-Resolved target =
      Does-ask server _ (shown columns schema) (show_query sdk text b schema "TABLES" target) [] _
        (λ names h answer.
          in_views names (shown-Shown "TABLES" target names h answer)
            (match_name text names target false) (match_name-Matched names target false))
    where
      in_views :
          (tables : List String)
          → Shown "TABLES" target tables
          → (found : Option Found) → Matched tables target false found
          → Does
              (λ found es. (es ≡ []) × Resolved target found)
              (elim found [
                | some found ↦ pure (some found)
                | none ↦ show_objects sdk text server columns b schema "VIEWS" target >>= λ views.
                    pure (match_name text views target true)
              ])
      in_views tables listed (some found) (e, m) =
          Does-pure _ (some found) (refl, table_of tables target found listed e m)
      in_views tables listed none lacks =
          Does-ask server (λ found es. (es ≡ []) × Resolved target found) (shown columns schema)
            (show_query sdk text b schema "VIEWS" target) []
            (λ views. pure (match_name text views target true))
            (λ views h answer. Does-pure _ _ (
              refl,
              view_of tables views target _ listed lacks (shown-Shown "VIEWS" target views h answer)
                  (match_name-Matched views target true),
            ))
