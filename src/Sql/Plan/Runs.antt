-- ===== src/Sql/Plan/Runs.antt =====
-- A run of a plan is accounted for, and actions that follow a plan.
use bindings.Exec.{lift, Result, ok, err, is_ok, Exec, ◌>>=◌, ◌>>◌, describe, pure, continue}
use bindings.Common.{
  true, String, ◌≡◌, refl, Bool, none, List, [], ◌∷◌, arith, inl, inr, Option-cases, ap, push,
}
use bindings.Sdk.{Artifact}
use bindings.Sql.{executed, History, Server, exec_context}
use bindings.Sql.Plan.{
  Session, Step, step, creating, report, on_connection, reported, run_plan, IsAccounted, finished,
  stopped,
}

module _ (server : Server) where
  IsAccounted-cons :
      (p : Step) (ps : List Step) (h : History) (xs : List Artifact) (s : Session) (b : Bool)
      → IsAccounted (executed p.stmt none ∷ h) (reported xs p.creates) ps s b
      → IsAccounted h xs (p ∷ ps) s b
  IsAccounted-cons p ps h xs s _ (finished eh ea) = finished eh ea
  IsAccounted-cons p ps h xs s _ (stopped done next rest e split eh ea) =
      stopped (p ∷ done) next rest e (ap (λ qs. p ∷ qs) split) eh ea

  pub run_plan-IsAccounted :
      (plan : List Step) (s : Session)
      → IsAccounted s.history s.artifacts plan (run_plan server plan s).1 (run_plan server plan s).0
  unfolding run_plan
  run_plan-IsAccounted [] s = finished refl refl
  run_plan-IsAccounted (p ∷ ps) s = elim (Option-cases (server.exec s.history p.stmt)) [
    | inr (e, failed) ↦ rw (failed, run_plan) (stopped [] p ps e refl refl refl)
    | inl fine ↦ rw (fine, run_plan) (IsAccounted-cons p ps _ _ _ _ (run_plan-IsAccounted ps _))
  ]

  -- The action leaves the session of the plan's run, and fails exactly when the run does.
  pub record Follows {A : Type 0} (plan : List Step) (m : Exec Session A) : Type 0 where
    pub at :
        (s : Session)
        → ((m s).1 ≡ (run_plan server plan s).1) × (is_ok (m s).0 ≡ (run_plan server plan s).0)

  module _ {A : Type 0} where
    pub Follows-pure : (a : A) → Follows [] (pure a)
    unfolding run_plan
    Follows-pure a = record { at = λ s. (refl, refl) }

    pub Follows-step :
        (stmt text : String) (ps : List Step) (k : Exec Session A)
        → Follows ps k
        → Follows (step stmt ∷ ps) (on_connection (describe text (exec_context server stmt)) >> k)
    unfolding run_plan exec_context
    Follows-step stmt text ps k f = record {
      at = λ s. ground (arith, f.at (record s { history = executed stmt none ∷ s.history }));
    }

    pub Follows-creating :
        (stmt text : String) (a : Artifact) (ps : List Step) (k : Exec Session A)
        → Follows ps k
        → Follows
            (creating stmt a ∷ ps)
            (on_connection (describe text (exec_context server stmt)) >> (report a >> k))
    unfolding run_plan exec_context
    Follows-creating stmt text a ps k f = record {
      at = λ s. ground (
        arith,
        f.at (record { history = executed stmt none ∷ s.history; artifacts = push s.artifacts a }),
      );
    }

    pub Follows-IsAccounted :
        (plan : List Step) (m : Exec Session A) (s : Session)
        → Follows plan m
        → IsAccounted s.history s.artifacts plan (m s).1 (is_ok (m s).0)
    Follows-IsAccounted plan m s f =
        let (same, fine) = f.at s in rw (same, fine) (run_plan-IsAccounted plan s)

-- An account generation that ran a plan: it is accounted for, and success means that the plan was
-- finished. What it computes after the plan may fail, and touches the session no more.
pub record IsProvisioned {A : Type 0} (plan : List Step) (s : Session) (out : Result A × Session)
    : Type 0 where
  pub complete : Bool
  pub accounted : IsAccounted s.history s.artifacts plan out.1 complete
  pub succeeds : is_ok out.0 ≡ true → complete ≡ true

continue-session :
    {A B : Type 0} (r : Result A) (f : A → Exec Session B) (s : Session)
    → ((a : A) → (f a s).1 ≡ s)
    → (continue r f s).1 ≡ s
continue-session (ok a) f s quiet = quiet a
continue-session (err _) f s quiet = refl

continue-is_ok :
    {A B : Type 0} (r : Result A) (f : A → Exec Session B) (s : Session)
    → is_ok (continue r f s).0 ≡ true
    → is_ok r ≡ true
continue-is_ok (ok a) f s h = refl
continue-is_ok (err _) f s h = h

pub Follows-IsProvisioned :
    {A B : Type 0} (server : Server) (plan : List Step) (m : Exec Session A)
    (f : A → Exec Session B) (s : Session)
    → Follows server plan m
    → ((a : A) (s' : Session) → (f a s').1 ≡ s')
    → IsProvisioned plan s ((m >>= f) s)
Follows-IsProvisioned server plan m f s follows quiet = record {
  complete = is_ok (m s).0;
  accounted =
      rw (continue-session (m s).0 f (m s).1 (λ a. quiet a (m s).1))
        (Follows-IsAccounted server plan m s follows);
  succeeds = continue-is_ok (m s).0 f (m s).1;
}

pub quiet_end :
    {A B : Type 0} (r : Result A) (f : A → B) (s : Session) → ((lift r >>= λ a. pure (f a)) s).1 ≡ s
quiet_end (ok a) f s = refl
quiet_end (err _) f s = refl
