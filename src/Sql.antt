-- ===== src/Sql.antt =====
-- The admin connection (`*sql.DB`). The database server is not in this repository: it is a
-- parameter that may answer each statement as it likes, depending on all that went before.
pub mod Plan
pub mod Grants
pub mod Perms
pub mod Connections
pub mod Executions
pub mod Rows
pub mod Does
pub mod Lookups
pub mod Statements
pub mod Settled
pub mod Commands
use bindings.Common.{ℕ, String, Option, none, some, List, [], ◌∷◌}
use bindings.Exec.{GoError, no_rows, Result, ok, err, Exec, check, ◌>>=◌, lift}

-- A row as its columns' texts.
abbrev pub Row : Type 0
Row = ℕ → String

-- `*sql.Rows`: what each `rows.Scan` gives, and `rows.Err()` at the end.
pub record Cursor : Type 0 where
  pub rows : List (Result Row)
  pub finish : Option GoError

-- What the connection has been asked, and what it answered.
pub data Event : Type 0 where
  executed : String → Option GoError → Event
  queried : String → List String → Result Cursor → Event
  opened : String → Option GoError → Event
  pinged : Option GoError → Event
  closed : Option GoError → Event

-- The newest event comes first.
abbrev pub History : Type 0
History = List Event

pub record Server : Type 0 where
  pub exec : History → String → Option GoError
  pub query : History → String → List String → Result Cursor
  pub open_dsn : History → String → Option GoError
  pub ping : History → Option GoError
  pub close : History → Option GoError

-- row.Scan of a single column, as `QueryRowContext` defines it.
abbrev pub first_row : List (Result Row) → Option GoError → Result String
first_row [] none = err no_rows
first_row [] (some e) = err e
first_row (ok row ∷ _) _ = ok (row 0)
first_row (err e ∷ _) _ = err e

module _ (server : Server) where
  -- adminConn.ExecContext
  unfoldable pub exec_context : String → Exec History Unit
  exec_context stmt h = let answer = server.exec h stmt in check answer (executed stmt answer ∷ h)

  -- adminConn.QueryContext
  unfoldable pub query_context : String → List String → Exec History Cursor
  query_context text args h =
      let answer = server.query h text args in (answer, queried text args answer ∷ h)

  -- adminConn.QueryRowContext(…).Scan(&v)
  unfoldable pub query_row : String → List String → Exec History String
  unfolding query_context
  query_row text args = query_context text args >>= λ c. lift (first_row c.rows c.finish)

  -- sql.Open
  unfoldable pub sql_open : String → Exec History Unit
  sql_open dsn h = let answer = server.open_dsn h dsn in check answer (opened dsn answer ∷ h)

  -- adminConn.PingContext
  unfoldable pub ping_context : Exec History Unit
  ping_context h = let answer = server.ping h in check answer (pinged answer ∷ h)

  -- adminConn.Close
  unfoldable pub close_conn : Exec History Unit
  close_conn h = let answer = server.close h in check answer (closed answer ∷ h)

  -- `if err := m; err != nil { adminConn.Close(); return … }`, the error of Close being ignored
  unfoldable pub close_on_error : {A : Type 0} → Exec History A → Exec History A
  close_on_error m h =
      let (r, h') = m h in
      elim r [ ok a ↦ (ok a, h') | err e ↦ (err e, closed (server.close h') ∷ h') ]
