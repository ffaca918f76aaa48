-- ===== src/Sql/Does.antt =====
-- What an operation executes when it succeeds, as a relation between its result and the executed
-- statements, with a rule for each way in which the code composes operations.
use bindings.Sql.{History}
use bindings.Common.{
  false, ap, none, if◌then◌else◌, ◌∙◌, sym, true, refl, ◌≡◌, Bool, String, [], List,
}
use bindings.Exec.{
  ◌>>=◌, lift, err, pure, fail, wrap_err, continue, describe, ok, Exec, Result, GoError,
}
use bindings.Sql.Executions.{Execution, executions}
use mathlib.Core.List.{◌++◌, append-nil, append_assoc}

-- A postcondition: which executions go with a result.
abbrev pub Post : Type 0 → Type 1
Post A = A → List Execution → Type 0

-- A run from `h`: after a success, the postcondition holds of what was executed.
abbrev pub Ran : {A : Type 0} → Post A → History → Result A × History → Type 0
Ran Q h (ok a, h') = (more : List Execution) × (executions h' ≡ executions h ++ more) × Q a more
Ran Q h (err _, h') = Unit

pub record Does {A : Type 0} (Q : Post A) (m : Exec History A) : Type 0 where
  pub at : (h : History) → Ran Q h (m h)

-- The postcondition of what is left to do, after `es` was executed.
abbrev pub after : {A : Type 0} → List Execution → Post A → Post A
after es Q a more = Q a (es ++ more)

abbrev pub fine : String → Execution
fine stmt = (stmt, none)

Ran-none :
    {A : Type 0} (Q : Post A) (a : A) (h h' : History)
    → executions h' ≡ executions h
    → Q a []
    → Ran Q h (ok a, h')
Ran-none Q a h h' e q = ([], e ∙ sym (append-nil _), q)

pub Ran-after :
    {A : Type 0} (Q : Post A) (es : List Execution) (h h1 : History) (out : Result A × History)
    → executions h1 ≡ executions h ++ es
    → Ran (after es Q) h1 out
    → Ran Q h out
Ran-after Q es h h1 (ok a, h2) e (more, e2, q) =
    (es ++ more, e2 ∙ ap (λ l. l ++ more) e ∙ append_assoc (executions h) es more, q)
Ran-after Q es h h1 (err _, h2) e r = tt

pub Ran-quiet :
    {A : Type 0} (Q : Post A) (h h1 : History) (out : Result A × History)
    → executions h1 ≡ executions h
    → Ran Q h1 out
    → Ran Q h out
Ran-quiet Q h h1 (ok a, h2) e (more, e2, q) = (more, e2 ∙ ap (λ l. l ++ more) e, q)
Ran-quiet Q h h1 (err _, h2) e r = tt

Ran-wrap :
    {A : Type 0} (Q : Post A) (text : String) (h : History) (out : Result A × History)
    → Ran Q h out
    → Ran Q h (wrap_err text out.0, out.1)
Ran-wrap Q text h (ok _, h') r = r
Ran-wrap Q text h (err _, h') r = tt

module _ {A : Type 0} (Q : Post A) where
  pub Does-pure : (a : A) → Q a [] → Does Q (pure a)
  Does-pure a q = record { at = λ h. Ran-none Q a h h refl q }

  pub Does-fail : (e : GoError) → Does Q (fail e)
  Does-fail e = record { at = λ h. tt }

  pub Does-if :
      (test : Bool) {m n : Exec History A}
      → (test ≡ true → Does Q m)
      → (test ≡ false → Does Q n)
      → Does Q (if test then m else n)
  Does-if true a c = a refl
  Does-if false a c = c refl

  pub Does-describe : (text : String) (m : Exec History A) → Does Q m → Does Q (describe text m)
  Does-describe text m d = record { at = λ h. Ran-wrap Q text h (m h) (d.at h) }

-- A test that decides what is done and what is promised.
pub Does-both :
    {A : Type 0} (test : Bool) (P Q : Post A) {m n : Exec History A}
    → Does P m
    → Does Q n
    → Does (if test then P else Q) (if test then m else n)
Does-both true P Q a c = a
Does-both false P Q a c = c

-- A weaker postcondition.
pub Does-weaken :
    {A : Type 0} (P Q : Post A) (m : Exec History A)
    → ((a : A) (es : List Execution) → P a es → Q a es)
    → Does P m
    → Does Q m
Does-weaken {A} P Q m weaken d = record { at = λ h. weakened h (m h) (d.at h) }
  where
    weakened : (h : History) (out : Result A × History) → Ran P h out → Ran Q h out
    weakened h (ok a, h') (more, e, p) = (more, e, weaken a more p)
    weakened h (err _, h') r = tt

module _ {A B : Type 0} (P : Post A) (Q : Post B) (m : Exec History A)
    (f : A → Exec History B) where
  bound :
      (h : History) (out : Result A × History)
      → Ran P h out
      → ((a : A) (es : List Execution) → P a es → Does (after es Q) (f a))
      → Ran Q h (continue out.0 f out.1)
  bound h (ok a, h1) (es, e, p) later = Ran-after Q es h h1 (f a h1) e ((later a es p).at h1)
  bound h (err _, h1) r later = tt

  pub Does-bind :
      Does P m
      → ((a : A) (es : List Execution) → P a es → Does (after es Q) (f a))
      → Does Q (m >>= f)
  Does-bind d later = record { at = λ h. bound h (m h) (d.at h) later }

-- A result that was computed before.
pub Does-lift :
    {A B : Type 0} (Q : Post B) (r : Result A) (f : A → Exec History B)
    → ((a : A) → r ≡ ok a → Does Q (f a))
    → Does Q (lift r >>= f)
Does-lift Q (ok a) f later = record { at = λ h. (later a refl).at h }
Does-lift Q (err _) f later = record { at = λ h. tt }
