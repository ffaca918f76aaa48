-- ===== src/Sql/Plan.antt =====
-- What an account generation does to the server, as a list of statements: each is executed in
-- turn, the first failure ends the run, and a statement that creates an object reports it.
pub mod Runs
pub mod Reports
use bindings.Common.{
  String, ◌≡◌, refl, Bool, true, false, Option, none, some, List, [], ◌∷◌, arith, push, ◌⊎◌, inl,
  inr, Option-cases,
}
use mathlib.Core.List.{◌++◌, append_assoc}
use bindings.Exec.{GoError, Result, ok, err, is_ok, Exec, check, ◌>>=◌, ◌>>◌, describe, fail, pure}
use bindings.Sdk.{Artifact}
use bindings.Sql.{Event, executed, History, Server, exec_context}

-- The connection, and the local variable `artifacts` of a GenerateAccount.
pub record Session : Type 0 where
  pub history : History
  pub artifacts : List Artifact

-- `artifacts = append(artifacts, binding.Artifact{…})`
abbrev pub report : Artifact → Exec Session Unit
report a s = (ok tt, record s { artifacts = push s.artifacts a })

-- An action on the connection leaves the local variable alone.
abbrev pub on_connection : {A : Type 0} → Exec History A → Exec Session A
on_connection m s = let (r, h) = m s.history in (r, record s { history = h })

pub record Step : Type 0 where
  pub stmt : String
  pub creates : Option Artifact

abbrev pub step : String → Step
step stmt = record { stmt = stmt; creates = none }

abbrev pub creating : String → Artifact → Step
creating stmt a = record { stmt = stmt; creates = some a }

abbrev pub reported : List Artifact → Option Artifact → List Artifact
reported xs none = xs
reported xs (some a) = push xs a

module _ (server : Server) where
  -- Whether the run reached the end, and the session that it left.
  pub run_plan : List Step → Session → Bool × Session
  run_plan [] s = (true, s)
  run_plan (p ∷ ps) s = elim (server.exec s.history p.stmt) [
    | some e ↦ (false, record s { history = executed p.stmt (some e) ∷ s.history })
    | none ↦ run_plan ps (record {
      history = executed p.stmt none ∷ s.history;
      artifacts = reported s.artifacts p.creates;
    })
  ]

-- The events of statements that succeeded, newest first, and the objects that they created.
abbrev pub succeeded : List Step → History → History
succeeded [] h = h
succeeded (p ∷ ps) h = succeeded ps (executed p.stmt none ∷ h)

abbrev pub created : List Step → List Artifact → List Artifact
created [] xs = xs
created (p ∷ ps) xs = created ps (reported xs p.creates)

-- A run that began with history `h` executed the statements of `done`, all with success, and
-- reports exactly the objects that these created. It either finished the plan, or the next
-- statement failed and was the last.
pub data IsAccounted (h : History) (xs : List Artifact) (plan : List Step) (s : Session)
    : Bool → Type 0 where
  finished :
      s.history ≡ succeeded plan h → s.artifacts ≡ created plan xs → IsAccounted h xs plan s true
  stopped :
      (done : List Step) (next : Step) (rest : List Step) (e : GoError)
      → plan ≡ done ++ (next ∷ rest)
      → s.history ≡ executed next.stmt (some e) ∷ succeeded done h
      → s.artifacts ≡ created done xs
      → IsAccounted h xs plan s false

-- A property of every object that a plan creates.
abbrev pub IfSome : (Artifact → Type 0) → Option Artifact → Type 0
IfSome P none = Unit
IfSome P (some a) = P a

abbrev pub Creates : (Artifact → Type 0) → List Step → Type 0
Creates P [] = Unit
Creates P (p ∷ ps) = IfSome P p.creates × Creates P ps
