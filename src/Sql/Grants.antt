-- ===== src/Sql/Grants.antt =====
-- The loop of every applyPerms, `for _, grant := range grants { … }`, and what a run of it does.
use mathlib.Core.List.{◌++◌, append-nil, append_assoc}
use bindings.Common.{
  String, ◌≡◌, refl, sym, ap, ◌∙◌, Bool, true, false, none, some, List, [], ◌∷◌, push,
  if◌then◌else◌,
}
use bindings.Exec.{is_no_rows, Result, ok, err, Exec, pure, continue, ◌>>=◌}
use bindings.Sdk.{Grant}
use bindings.Sql.{first_row, executed, queried, Event, History}

module _ (apply_grant : Grant → Exec History Bool) where
  -- `apply_grant` says whether the grant is appended to `grantsDone`.
  unfoldable pub apply_each : List Grant → List Grant → Exec History (List Grant)
  apply_each grants_done [] = pure grants_done
  apply_each grants_done (g ∷ gs) = do
    applied ← apply_grant g
    apply_each (if applied then push grants_done g else grants_done) gs

-- What counts of a run: a statement that succeeded, or a lookup that found no row.
pub data Action : Type 0 where
  did : String → Action
  missed : List String → Action

-- A single-row lookup whose error is `sql.ErrNoRows` found nothing.
abbrev pub missing : List String → Result String → List Action
missing args (ok _) = []
missing args (err e) = if is_no_rows e then missed args ∷ [] else []

abbrev pub action_of : Event → List Action
action_of (executed stmt none) = did stmt ∷ []
action_of (executed stmt (some _)) = []
action_of (queried text args (ok c)) = missing args (first_row c.rows c.finish)
action_of (queried text args (err e)) = missing args (err e)
action_of _ = []

-- The actions of a history, in the order of their execution.
abbrev pub actions : History → List Action
actions [] = []
actions (e ∷ h) = actions h ++ action_of e

-- A decision for each grant: whether it was reported as applied.
abbrev pub Decisions : Type 0
Decisions = List (Grant × Bool)

abbrev pub decided_grants : Decisions → List Grant
decided_grants [] = []
decided_grants ((g, _) ∷ ds) = g ∷ decided_grants ds

abbrev pub applied_grants : Decisions → List Grant
applied_grants [] = []
applied_grants ((g, true) ∷ ds) = g ∷ applied_grants ds
applied_grants ((g, false) ∷ ds) = applied_grants ds

module _ (Possible : Grant → Bool → Type 0) (effect : Grant → Bool → List Action) where
  abbrev pub effects : Decisions → List Action
  effects [] = []
  effects ((g, applied) ∷ ds) = effect g applied ++ effects ds

  abbrev pub AllPossible : Decisions → Type 0
  AllPossible [] = Unit
  AllPossible ((g, applied) ∷ ds) = Possible g applied × AllPossible ds

  -- One grant, handled with success: the decision is possible and its effect is what was done.
  abbrev pub Settles : List Action → Grant → Result Bool × History → Type 0
  Settles before g (ok applied, h') = Possible g applied × (actions h' ≡ before ++ effect g applied)
  Settles before g (err _, h') = Unit

  -- A whole run that succeeded: a possible decision for each grant, in order, whose effects are
  -- what was done; the grants reported are those decided to be applied.
  pub record IsSettled (before : List Action) (grants grants_done : List Grant) (h' : History)
      : Type 0 where
    pub decisions : Decisions
    pub covers : decided_grants decisions ≡ grants
    pub possible : AllPossible decisions
    pub reports : applied_grants decisions ≡ grants_done
    pub acts : actions h' ≡ before ++ effects decisions

  module _ (apply_grant : Grant → Exec History Bool)
      (sound : (g : Grant) (h : History) → Settles (actions h) g (apply_grant g h)) where
    -- The decisions of the rest of the loop, `grants_done` being what is reported so far.
    abbrev Rest : List Action → List Grant → List Grant → Result (List Grant) × History → Type 0
    Rest before grants_done gs (ok final, h') =
        (more : List Grant) × (final ≡ grants_done ++ more) × IsSettled before gs more h'
    Rest before grants_done gs (err _, h') = Unit

    Rest-cons :
        (before : List Action) (grants_done gs : List Grant) (g : Grant) (applied : Bool)
        (out : Result (List Grant) × History)
        → Possible g applied
        → Rest
            (before ++ effect g applied)
            (if applied then push grants_done g else grants_done)
            gs
            out
        → Rest before grants_done (g ∷ gs) out
    Rest-cons before grants_done gs g true (ok final, h') p (more, e, s) = (
      g ∷ more,
      e ∙ append_assoc grants_done (g ∷ []) more,
      record {
        decisions = (g, true) ∷ s.decisions;
        covers = ap (λ l. g ∷ l) s.covers;
        possible = (p, s.possible);
        reports = ap (λ l. g ∷ l) s.reports;
        acts = s.acts ∙ append_assoc before (effect g true) (effects s.decisions);
      },
    )
    Rest-cons before grants_done gs g false (ok final, h') p (more, e, s) = (
      more,
      e,
      record {
        decisions = (g, false) ∷ s.decisions;
        covers = ap (λ l. g ∷ l) s.covers;
        possible = (p, s.possible);
        reports = s.reports;
        acts = s.acts ∙ append_assoc before (effect g false) (effects s.decisions);
      },
    )
    Rest-cons before grants_done gs g applied (err _, h') p r = tt

    after_grant :
        (before : List Action) (grants_done gs : List Grant) (g : Grant)
        (out : Result Bool × History)
        → ((grants_done' : List Grant) (h' : History)
            → Rest (actions h') grants_done' gs (apply_each apply_grant grants_done' gs h'))
        → Settles before g out
        → Rest before grants_done (g ∷ gs) (
            continue out.0
              (λ applied.
                apply_each apply_grant (if applied then push grants_done g else grants_done) gs)
              out.1)
    after_grant before grants_done gs g (ok applied, h') rest (p, e) =
        Rest-cons before grants_done gs g applied _ p
          (rw e at (rest (if applied then push grants_done g else grants_done) h'))
    after_grant before grants_done gs g (err _, h') rest s = tt

    apply_each-Rest :
        (grants_done gs : List Grant) (h : History)
        → Rest (actions h) grants_done gs (apply_each apply_grant grants_done gs h)
    unfolding apply_each
    apply_each-Rest grants_done [] h = (
      [],
      sym (append-nil _),
      record {
        decisions = [];
        covers = refl;
        possible = tt;
        reports = refl;
        acts = sym (append-nil _);
      },
    )
    apply_each-Rest grants_done (g ∷ gs) h =
        after_grant (actions h) grants_done gs g (apply_grant g h) (λ d. apply_each-Rest d gs)
          (sound g h)

    pub apply_each-IsSettled :
        (gs : List Grant) (h h' : History) (grants_done : List Grant)
        → apply_each apply_grant [] gs h ≡ (ok grants_done, h')
        → IsSettled (actions h) gs grants_done h'
    apply_each-IsSettled gs h h' grants_done e =
        let (more, same, s) = rw e at (apply_each-Rest [] gs h) in rw same s

-- The same behind the test on `operation`, as every applyPerms ends.
pub apply_each-IsSettled_of_operation :
    (Possible : Bool → Grant → Bool → Type 0) (effect : Bool → Grant → Bool → List Action)
    (apply_grant : Bool → Grant → Exec History Bool)
    → ((is_grant : Bool) (g : Grant) (h : History)
        → Settles (Possible is_grant) (effect is_grant) (actions h) g (apply_grant is_grant g h))
    → (operation : Result Bool) (gs : List Grant) (h h' : History) (grants_done : List Grant)
    → continue operation (λ is_grant. apply_each (apply_grant is_grant) [] gs) h
      ≡ (ok grants_done, h')
    → (is_grant : Bool) × (operation ≡ ok is_grant)
      × IsSettled (Possible is_grant) (effect is_grant) (actions h) gs grants_done h'
apply_each-IsSettled_of_operation Possible effect apply_grant sound (ok g) gs h h' gs_done e =
    (g, refl, apply_each-IsSettled _ _ (apply_grant g) (sound g) gs h h' gs_done e)
apply_each-IsSettled_of_operation Possible effect apply_grant sound (err _) gs h h' gs_done e = cc
