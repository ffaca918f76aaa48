-- ===== src/Sql/Statements.antt =====
-- The rules of Sql/Does for statements and queries.
use bindings.Sql.{
  first_row, queried, executed, History, Cursor, query_context, query_row, exec_context, Server,
}
use bindings.Exec.{
  lift, wrap_err, err, continue, ok, ◌>>=◌, describe, check, ◌>>◌, answered, GoError, Exec, Result,
  Done,
}
use bindings.Common.{none, refl, some, ◌≡◌, [], Option, List, ◌∷◌, String}
use bindings.Sql.Executions.{executions}
use bindings.Sql.Perms.{inspect}
use bindings.Sql.Does.{Post, Ran, Does, after, fine, Ran-after, Ran-quiet}

module _ {A : Type 0} (server : Server) (Q : Post A) where
  -- `if _, err := exec(stmt); err != nil { return … }`, and what comes after it.
  pub Does-run :
      (text stmt : String) (k : Exec History A)
      → Does (after (fine stmt ∷ []) Q) k
      → Does Q (describe text (exec_context server stmt) >> k)
  unfolding exec_context
  Does-run text stmt k d = record { at = λ h. answered h (server.exec h stmt) }
    where
      answered :
          (h : History) (answer : Option GoError)
          → let out = check answer (executed stmt answer ∷ h) in
            Ran Q h (continue (wrap_err text out.0) (λ _. k) out.1)
      answered h none =
          let h1 = executed stmt none ∷ h in Ran-after Q (fine stmt ∷ []) h h1 (k h1) refl (d.at h1)
      answered h (some _) = tt

  pub Does-exec :
      (stmt : String) (k : Exec History A)
      → Does (after (fine stmt ∷ []) Q) k
      → Does Q (exec_context server stmt >> k)
  unfolding exec_context
  Does-exec stmt k d = record { at = λ h. answered h (server.exec h stmt) }
    where
      answered :
          (h : History) (answer : Option GoError)
          → let out = check answer (executed stmt answer ∷ h) in
            Ran Q h (continue out.0 (λ _. k) out.1)
      answered h none =
          let h1 = executed stmt none ∷ h in Ran-after Q (fine stmt ∷ []) h h1 (k h1) refl (d.at h1)
      answered h (some _) = tt

  -- A query executes nothing; what is read from its rows is what the server answered.
  pub Does-ask :
      {B : Type 0} (f : Result Cursor → Result B) (text : String) (args : List String)
      (k : B → Exec History A)
      → ((b : B) (h : History) → f (server.query h text args) ≡ ok b → Does Q (k b))
      → Does Q (inspect f (query_context server text args) >>= k)
  unfolding query_context
  Does-ask {B} f text args k later = record { at = λ h. read h (f (server.query h text args)) refl }
    where
      read :
          (h : History) (r : Result B)
          → f (server.query h text args) ≡ r
          → Ran Q h (continue r k (queried text args (server.query h text args) ∷ h))
      read h (ok b) e =
          let h1 = queried text args (server.query h text args) ∷ h in
          Ran-quiet Q h h1 (k b h1) refl ((later b h e).at h1)
      read h (err _) e = tt

  pub Does-query :
      {B : Type 0} (f : Result Cursor → Result B) (text : String) (args : List String)
      (k : B → Exec History A)
      → ((b : B) → Does Q (k b))
      → Does Q (inspect f (query_context server text args) >>= k)
  Does-query f text args k later = Does-ask f text args k (λ b _ _. later b)

  -- A query of one row; what is read from it is the row that the server answered.
  pub Does-ask_row :
      {B : Type 0} (f : Result String → Result B) (text : String) (args : List String)
      (k : B → Exec History A)
      → ((b : B) (h : History) → f (query_row server text args h).0 ≡ ok b → Does Q (k b))
      → Does Q (inspect f (query_row server text args) >>= k)
  unfolding query_row query_context
  Does-ask_row {B} f text args k later = record {
    at = λ h. read h (server.query h text args) (later_at h);
  }
    where
      later_at : (h : History) (b : B) → f (query_row server text args h).0 ≡ ok b → Does Q (k b)
      later_at h b e = later b h e

      judged :
          (h h1 : History) (r : Result B)
          → executions h1 ≡ executions h
          → ((b : B) → r ≡ ok b → Does Q (k b))
          → Ran Q h (continue r k h1)
      judged h h1 (ok b) e next = Ran-quiet Q h h1 (k b h1) e ((next b refl).at h1)
      judged h h1 (err _) e next = tt

      read :
          (h : History) (answer : Result Cursor)
          → let out =
              continue answer
                (λ c. lift (first_row c.rows c.finish))
                (queried text args answer ∷ h) in
            ((b : B) → f out.0 ≡ ok b → Does Q (k b)) → Ran Q h (continue (f out.0) k out.1)
      read h (ok c) next =
          judged h (queried text args (ok c) ∷ h) (f (first_row c.rows c.finish)) refl next
      read h (err e) next = judged h (queried text args (err e) ∷ h) (f (err e)) refl next

  pub Does-query_row :
      {B : Type 0} (f : Result String → Result B) (text : String) (args : List String)
      (k : B → Exec History A)
      → ((b : B) → Does Q (k b))
      → Does Q (inspect f (query_row server text args) >>= k)
  Does-query_row f text args k later = Does-ask_row f text args k (λ b _ _. later b)

-- The last statement of an operation.
pub Does-last :
    (server : Server) (Q : Post Done) (stmt : String)
    → Q tt (fine stmt ∷ [])
    → Does Q (exec_context server stmt)
unfolding exec_context
Does-last server Q stmt q = record { at = λ h. answered h (server.exec h stmt) }
  where
    answered :
        (h : History) (answer : Option GoError) → Ran Q h (check answer (executed stmt answer ∷ h))
    answered h none = (fine stmt ∷ [], refl, q)
    answered h (some _) = tt

-- A statement whose error is judged.
pub Does-inspect :
    {A : Type 0} (server : Server) (Q : Post A) (f : Result Done → Result A) (stmt : String)
    → ((answer : Option GoError) (a : A) → f (answered answer) ≡ ok a → Q a ((stmt, answer) ∷ []))
    → Does Q (inspect f (exec_context server stmt))
unfolding exec_context
Does-inspect {A} server Q f stmt judged = record { at = λ h. seen h (server.exec h stmt) }
  where
    accepted :
        (h : History) (answer : Option GoError) (r : Result A)
        → f (answered answer) ≡ r
        → Ran Q h (r, executed stmt answer ∷ h)
    accepted h answer (ok a) e = ((stmt, answer) ∷ [], refl, judged answer a e)
    accepted h answer (err _) e = tt

    seen :
        (h : History) (answer : Option GoError)
        → let out = check answer (executed stmt answer ∷ h) in Ran Q h (f out.0, out.1)
    seen h none = accepted h none _ refl
    seen h (some e) = accepted h (some e) _ refl
