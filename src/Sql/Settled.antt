-- ===== src/Sql/Settled.antt =====
-- What a successful applyPerms does, grant by grant.
use bindings.Common.{false, refl, true, ◌∙◌, [], push, ◌∷◌, if◌then◌else◌, sym, ◌≡◌, List, Bool}
use bindings.Exec.{err, ok, continue, Result, Exec}
use bindings.Sql.Executions.{executions, Execution}
use mathlib.Core.List.{◌++◌, append-nil, append_assoc}
use bindings.Sql.Grants.{apply_each}
use bindings.Sql.{History}
use bindings.Sdk.{Grant}
use bindings.Sql.Does.{Post, Does, Does-pure, Does-bind, Does-weaken}

-- Each grant in order: a decision whether it is reported, and what was executed for it.
abbrev pub Settled : (Grant → Post Bool) → List Grant → List Grant → List Execution → Type 0
Settled Effect [] done es = (done ≡ []) × (es ≡ [])
Settled Effect (g ∷ gs) done es =
    (applied : Bool) × (now later : List Execution) × (rest : List Grant) × Effect g applied now
    × Settled Effect gs rest later
    × (done ≡ (if applied then g ∷ rest else rest))
    × (es ≡ now ++ later)

module _ (Effect : Grant → Post Bool) (apply_grant : Grant → Exec History Bool)
    (sound : (g : Grant) → Does (Effect g) (apply_grant g)) where
  -- `before` is what is reported so far.
  abbrev Reports : List Grant → List Grant → Post (List Grant)
  Reports before gs final es =
      (done : List Grant) × (final ≡ before ++ done) × Settled Effect gs done es

  more_done :
      (before rest : List Grant) (g : Grant) (applied : Bool) (final : List Grant)
      → final ≡ (if applied then push before g else before) ++ rest
      → final ≡ before ++ (if applied then g ∷ rest else rest)
  more_done before rest g true final e = e ∙ append_assoc before (g ∷ []) rest
  more_done before rest g false final e = e

  apply_each-Reports :
      (before gs : List Grant) → Does (Reports before gs) (apply_each apply_grant before gs)
  unfolding apply_each
  apply_each-Reports before [] =
      Does-pure (Reports before []) before ([], sym (append-nil _), (refl, refl))
  apply_each-Reports before (g ∷ gs) =
      Does-bind (Effect g) (Reports before (g ∷ gs)) (apply_grant g) _ (sound g)
        (λ applied now effect.
          Does-weaken (Reports (if applied then push before g else before) gs) _ _
            (λ final later (rest, e, settled). (
              (if applied then g ∷ rest else rest),
              more_done before rest g applied final e,
              (applied, now, later, rest, effect, settled, refl, refl),
            ))
            (apply_each-Reports (if applied then push before g else before) gs))

-- An applyPerms: the test on its operation, then the loop.
pub apply_perms_rule :
    (Effect : Bool → Grant → Post Bool) (apply_grant : Bool → Grant → Exec History Bool)
    → ((is_grant : Bool) (g : Grant) → Does (Effect is_grant g) (apply_grant is_grant g))
    → (operation : Result Bool) (gs : List Grant) (h h' : History) (grants_done : List Grant)
    → continue operation (λ is_grant. apply_each (apply_grant is_grant) [] gs) h
      ≡ (ok grants_done, h')
    → (is_grant : Bool) × (operation ≡ ok is_grant)
      × (more : List Execution) × (executions h' ≡ executions h ++ more)
      × Settled (Effect is_grant) gs grants_done more
apply_perms_rule Effect apply_grant sound (ok g) gs h h' grants_done e =
    let r = rw e at ((apply_each-Reports (Effect g) (apply_grant g) (sound g) [] gs).at h) in
    let (more, added, (done, same, settled)) = r in (g, refl, more, added, rw same settled)
apply_perms_rule Effect apply_grant sound (err _) gs h h' grants_done e = cc
