-- ===== src/Sql/Lookups.antt =====
-- What the server answered to a query of one row, as the lookups of the providers read it.
use bindings.Common.{String, List, Bool, true, false, Option, some, none, ◌≡◌, if◌then◌else◌, refl}
use bindings.Exec.{Result, ok, err, GoError, is_no_rows}
use bindings.Sql.{Server, History, query_row}
use bindings.Sql.Perms.{row_present}

module _ (server : Server) (text : String) (args : List String) where
  -- The answer, at some time: a value, or that there is no row.
  abbrev pub Answers : Option String → Type 0
  Answers (some value) = (h : History) × ((query_row server text args h).0 ≡ ok value)
  Answers none =
      (h : History) × (e : GoError) × ((query_row server text args h).0 ≡ err e)
      × (is_no_rows e ≡ true)

  -- Whether there was a row.
  abbrev pub HasRow : Bool → Type 0
  HasRow true = (value : String) × Answers (some value)
  HasRow false = Answers none

  -- An error that is read as an answer says that there is no row.
  pub Answers-none :
      {A : Type 0} (h : History) (e wrapped : GoError) (a b : A) (missing : Bool)
      → (query_row server text args h).0 ≡ err e
      → is_no_rows e ≡ missing
      → (if missing then ok a else err wrapped) ≡ ok b
      → Answers none × (a ≡ b)
  Answers-none h e wrapped a b true failed no_row read = ((h, e, failed, no_row), cc)
  Answers-none h e wrapped a b false failed no_row read = cc

  pub row_present-HasRow :
      (error_text : String) (b : Bool) (h : History)
      → row_present error_text (query_row server text args h).0 ≡ ok b
      → HasRow b
  row_present-HasRow error_text b h = seen _ b refl
    where
      never : false ≡ true → HasRow true
      never e = cc

      seen :
          (r : Result String) (b : Bool)
          → (query_row server text args h).0 ≡ r
          → row_present error_text r ≡ ok b
          → HasRow b
      seen (ok value) true same read = (value, (h, same))
      seen (ok value) false same read = cc
      seen (err e) false same read = (Answers-none h e _ false false _ same refl read).0
      seen (err e) true same read = never (Answers-none h e _ false true _ same refl read).1
