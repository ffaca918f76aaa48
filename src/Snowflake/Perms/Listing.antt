-- ===== src/Snowflake/Perms/Listing.antt =====
-- The names that scanShowNames of the Snowflake provider reads from the answer to a SHOW command.
use bindings.Common.{
  ◌++◌, String, List, Option, ℕ, suc, ◌+◌, [], ◌∷◌, some, none, ◌≡◌, refl, ◌==◌, Bool-cases, eq_iff,
  get_elem?, map, arith, inl, inr, ap,
}
use bindings.Snowflake.Perms.{read_names, name_index, names_of, scan_show_names, shown}
use bindings.Exec.{Result, ok, err, GoError, >>--eq-ok, wrap_err}
use bindings.Sql.{Cursor, Row}

-- Of every row of an answer, the value of a column that is called "name".
abbrev pub IsListing : (Cursor → Result (List String)) → Cursor → List String → Type 0
IsListing columns c names =
    (titles : List String) × (i : ℕ) × (rows : List Row) × (columns c ≡ ok titles)
    × (get_elem? titles i ≡ some "name")
    × (c.rows ≡ map ok rows)
    × (names ≡ map (λ row. row i) rows)

name_index-get_elem :
    (j : ℕ) (titles : List String) (i : ℕ)
    → name_index j titles ≡ some i
    → (k : ℕ) × (i ≡ j + k) × (get_elem? titles k ≡ some "name")
unfolding name_index
name_index-get_elem j [] i e = cc
name_index-get_elem j (title ∷ titles) i e = elim (Bool-cases (title == "name")) [
  | inl same ↦ (0, ground (arith, same), ap some ((eq_iff title "name").0 same))
  | inr other ↦
      let (k, at, found) = name_index-get_elem (suc j) titles i (ground (arith, other)) in
      (suc k, omega arith, found)
]

names_of-map :
    (rows : List (Result Row)) (finish : Option GoError) (i : ℕ) (names : List String)
    → names_of rows finish i ≡ ok names
    → (read : List Row) × (rows ≡ map ok read) × (names ≡ map (λ row. row i) read)
unfolding names_of
names_of-map [] none i names e = ([], refl, cc)
names_of-map [] (some x) i names e = cc
names_of-map (err x ∷ rows) finish i names e = cc
names_of-map (ok row ∷ rows) finish i names e =
    let (later, ran, whole) = >>--eq-ok (names_of rows finish i) (λ names. ok (row i ∷ names)) e in
    let (read, same, mapped) = names_of-map rows finish i later ran in
    (row ∷ read, ap (λ l. ok row ∷ l) same, cc)

read_names-map :
    (columns : Cursor → Result (List String)) (c : Cursor) (titles names : List String)
    (found : Option ℕ)
    → columns c ≡ ok titles
    → name_index 0 titles ≡ found
    → read_names c found ≡ ok names
    → IsListing columns c names
read_names-map columns c titles names none titled at e = cc
read_names-map columns c titles names (some i) titled at e =
    let (k, same, named) = name_index-get_elem 0 titles i at in
    let index : i ≡ k = omega arith in
    let (rows, read, mapped) = names_of-map c.rows c.finish i names e in
    (titles, i, rows, titled, rw index named, read, mapped)

scan_show_names-IsListing :
    (columns : Cursor → Result (List String)) (c : Cursor) (names : List String)
    → scan_show_names columns c ≡ ok names
    → IsListing columns c names
unfolding scan_show_names
scan_show_names-IsListing columns c names e =
    let (titles, titled, read) =
      >>--eq-ok (columns c) (λ titles. read_names c (name_index 0 titles)) e in
    read_names-map columns c titles names _ titled refl read

pub shown-IsListing :
    (columns : Cursor → Result (List String)) (schema : String) (answer : Result Cursor)
    (names : List String)
    → shown columns schema answer ≡ ok names
    → (c : Cursor) × (answer ≡ ok c) × IsListing columns c names
shown-IsListing columns schema (err x) names e = cc
shown-IsListing columns schema (ok c) names e =
    (c, refl, scan_show_names-IsListing columns c names (unwrapped _ e))
  where
    unwrapped :
        (r : Result (List String))
        → wrap_err ("error reading objects in schema " ++ schema) r ≡ ok names
        → r ≡ ok names
    unwrapped (ok _) e = e
    unwrapped (err _) e = cc
