-- ===== src/Sql/Plan/Reports.antt =====
-- What holds of every object that a plan creates holds of every artifact that its run reports.
use bindings.Common.{none, [], ◌∷◌, All-append, some, Bool, All, Option, List}
use bindings.Sql.Plan.{
  stopped, finished, reported, IsAccounted, created, IfSome, Creates, Session, Step,
}
use bindings.Sql.{History}
use bindings.Sdk.{Artifact}
use mathlib.Core.List.{◌++◌}

module _ (P : Artifact → Type 0) where
  All-reported :
      (xs : List Artifact) (c : Option Artifact) → All P xs → IfSome P c → All P (reported xs c)
  All-reported xs none h p = h
  All-reported xs (some a) h p = All-append P xs (a ∷ []) h (p, tt)

  All-created :
      (plan : List Step) (xs : List Artifact) → All P xs → Creates P plan → All P (created plan xs)
  All-created [] xs h c = h
  All-created (p ∷ ps) xs h c =
      All-created ps (reported xs p.creates) (All-reported xs p.creates h c.0) c.1

  Creates-prefix : (done rest : List Step) → Creates P (done ++ rest) → Creates P done
  Creates-prefix [] rest c = tt
  Creates-prefix (p ∷ ps) rest c = (c.0, Creates-prefix ps rest c.1)

  pub IsAccounted-All :
      {h : History} {xs : List Artifact} {plan : List Step} {s : Session} {complete : Bool}
      → IsAccounted h xs plan s complete
      → All P xs
      → Creates P plan
      → All P s.artifacts
  IsAccounted-All {xs} {plan} (finished eh ea) a c = rw ea (All-created plan xs a c)
  IsAccounted-All {xs} (stopped done next rest e split eh ea) a c =
      rw ea (All-created done xs a (Creates-prefix done (next ∷ rest) (rw split at c)))
