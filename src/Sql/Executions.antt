-- ===== src/Sql/Executions.antt =====
-- The statements that a connection executed, with the server's answers, and operations of which
-- every execution has a property.
use bindings.Common.{
  All-append, sym, ap, false, ◌∙◌, none, ◌∷◌, true, All, some, refl, [], List, if◌then◌else◌, ◌≡◌,
  Option, Bool, String,
}
use bindings.Sql.{
  queried, first_row, executed, Cursor, Server, query_row, History, exec_context, query_context,
}
use bindings.Exec.{
  check, err, is_ok, ok, wrap_err, fail, describe, continue, lift, ◌>>=◌, GoError, Result, Exec,
  pure,
}
use bindings.Sql.Perms.{inspect}
use bindings.Sdk.{Grant}
use bindings.Sql.Grants.{apply_each}
use mathlib.Core.List.{◌++◌, append-nil, append_assoc}

-- In the order of their execution.
abbrev pub Execution : Type 0
Execution = String × Option GoError

abbrev pub executions : History → List Execution
executions [] = []
executions (executed stmt answer ∷ h) = executions h ++ ((stmt, answer) ∷ [])
executions (_ ∷ h) = executions h

abbrev pub of_answer {ℓ} : Option GoError → Result (Unit {ℓ})
of_answer none = ok tt
of_answer (some e) = err e

module _ (P : Execution → Type 0) where
  -- A run that succeeded has executed statements with the property, and no others.
  abbrev pub Adds : {A : Type 0} → History → Result A × History → Type 0
  Adds h (ok _, h') = (more : List Execution) × (executions h' ≡ executions h ++ more) × All P more
  Adds h (err _, h') = Unit

  pub record AddsAll {A : Type 0} (m : Exec History A) : Type 0 where
    pub at : (h : History) → Adds h (m h)

  pub Adds-none :
      {A : Type 0} (r : Result A) (h h' : History) → executions h' ≡ executions h → Adds h (r, h')
  Adds-none (ok _) h h' e = ([], e ∙ sym (append-nil _), tt)
  Adds-none (err _) h h' e = tt

  Adds-after :
      {A : Type 0} (h h1 : History) (more : List Execution) (out : Result A × History)
      → executions h1 ≡ executions h ++ more
      → All P more
      → Adds h1 out
      → Adds h out
  Adds-after h h1 more (ok _, h2) e p (later, e2, q) = (
    more ++ later,
    e2 ∙ ap (λ l. l ++ later) e ∙ append_assoc (executions h) more later,
    All-append P more later p q,
  )
  Adds-after h h1 more (err _, h2) e p a = tt

  Adds-continue :
      {A B : Type 0} (h : History) (out : Result A × History) (f : A → Exec History B)
      → Adds h out
      → ((a : A) → AddsAll (f a))
      → Adds h (continue out.0 f out.1)
  Adds-continue h (ok a, h1) f (more, e, p) later =
      Adds-after h h1 more (f a h1) e p ((later a).at h1)
  Adds-continue h (err _, h1) f a later = tt

  pub AddsAll-bind :
      {A B : Type 0} {m : Exec History A} {f : A → Exec History B}
      → AddsAll m
      → ((a : A) → AddsAll (f a))
      → AddsAll (m >>= f)
  AddsAll-bind {m} {f} a later = record { at = λ h. Adds-continue h (m h) f (a.at h) later }

  pub AddsAll-pure : {A : Type 0} (a : A) → AddsAll (pure a)
  AddsAll-pure a = record { at = λ h. Adds-none (ok a) h h refl }

  pub AddsAll-lift : {A : Type 0} (r : Result A) → AddsAll (lift r)
  AddsAll-lift r = record { at = λ h. Adds-none r h h refl }

  pub AddsAll-fail : {A : Type 0} (e : GoError) → AddsAll (fail {A = A} e)
  AddsAll-fail e = record { at = λ h. tt }

  -- An error may be reworded, but not hidden.
  Adds-wrap :
      {A : Type 0} (text : String) (h : History) (out : Result A × History)
      → Adds h out
      → Adds h (wrap_err text out.0, out.1)
  Adds-wrap text h (ok _, h') a = a
  Adds-wrap text h (err _, h') a = tt

  pub AddsAll-describe :
      {A : Type 0} (text : String) {m : Exec History A} → AddsAll m → AddsAll (describe text m)
  AddsAll-describe text {m} a = record { at = λ h. Adds-wrap text h (m h) (a.at h) }

  pub AddsAll-if :
      {A : Type 0} (test : Bool) {m n : Exec History A}
      → AddsAll m
      → AddsAll n
      → AddsAll (if test then m else n)
  AddsAll-if true a c = a
  AddsAll-if false a c = c

  -- A statement whose answer is inspected: what the inspection lets pass must have the property.
  pub AddsAll-inspect :
      {A : Type 0} (server : Server) (f : Result Unit → Result A) (stmt : String)
      → ((answer : Option GoError) → is_ok (f (of_answer answer)) ≡ true → P (stmt, answer))
      → AddsAll (inspect f (exec_context server stmt))
  unfolding exec_context
  AddsAll-inspect server f stmt holds = record { at = λ h. one h (server.exec h stmt) }
    where
      passed :
          {A : Type 0} (h : History) (answer : Option GoError) (r : Result A)
          → (is_ok r ≡ true → P (stmt, answer))
          → Adds h (r, executed stmt answer ∷ h)
      passed h answer (ok _) p = (_, refl, (p refl, tt))
      passed h answer (err _) p = tt

      one :
          (h : History) (answer : Option GoError)
          → let out = check answer (executed stmt answer ∷ h) in Adds h (f out.0, out.1)
      one h none = passed h none (f (ok tt)) (holds none)
      one h (some e) = passed h (some e) (f (err e)) (holds (some e))

  -- Queries execute nothing.
  pub AddsAll-query :
      {A : Type 0} (server : Server) (f : Result Cursor → Result A) (text : String)
      (args : List String)
      → AddsAll (inspect f (query_context server text args))
  unfolding query_context
  AddsAll-query server f text args = record { at = λ h. Adds-none _ h _ refl }

  pub AddsAll-query_row :
      {A : Type 0} (server : Server) (f : Result String → Result A) (text : String)
      (args : List String)
      → AddsAll (inspect f (query_row server text args))
  unfolding query_row query_context
  AddsAll-query_row server f text args = record { at = λ h. quiet h (server.query h text args) }
    where
      quiet :
          (h : History) (answer : Result Cursor)
          → let out =
              continue answer
                (λ c. lift (first_row c.rows c.finish))
                (queried text args answer ∷ h) in
            Adds h (f out.0, out.1)
      quiet h (ok c) = Adds-none (f (first_row c.rows c.finish)) h _ refl
      quiet h (err e) = Adds-none (f (err e)) h _ refl

  pub apply_each-AddsAll :
      (apply_grant : Grant → Exec History Bool) (done gs : List Grant)
      → ((g : Grant) → AddsAll (apply_grant g))
      → AddsAll (apply_each apply_grant done gs)
  unfolding apply_each
  apply_each-AddsAll apply_grant done [] each = AddsAll-pure done
  apply_each-AddsAll apply_grant done (g ∷ gs) each =
      AddsAll-bind (each g) (λ applied. apply_each-AddsAll apply_grant _ gs each)
