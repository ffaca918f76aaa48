-- ===== src/Sql/Rows.antt =====
-- The loop over the rows of a query, as the providers write it.
use bindings.Common.{String, Option, none, some, List, [], ◌∷◌}
use bindings.Exec.{GoError, Result, ok, err, ◌>>-◌}
use bindings.Sql.{Row, Cursor}

-- rows.Next, rows.Scan and rows.Err
abbrev pub collect_rows :
    {A : Type 0} → (Row → A) → String → List (Result Row) → Option GoError → Result (List A)
collect_rows read text [] none = ok []
collect_rows read text [] (some e) = err (GoError.wrap text e)
collect_rows read text (ok row ∷ rows) finish =
    collect_rows read text rows finish >>- λ values. ok (read row ∷ values)
collect_rows read text (err e ∷ rows) finish = err (GoError.wrap text e)

abbrev pub collected : {A : Type 0} → (Row → A) → String → String → Result Cursor → Result (List A)
collected read list_text read_text (ok c) = collect_rows read read_text c.rows c.finish
collected read list_text read_text (err e) = err (GoError.wrap list_text e)
