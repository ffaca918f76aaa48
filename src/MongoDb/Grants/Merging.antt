-- ===== src/MongoDb/Grants/Merging.antt =====
-- How `addActions` changes the actions of each target.
use bindings.Common.{
  refl, eq_iff, [], arith, some, ◌&&◌, ◌==◌, if◌then◌else◌, ◌||◌, ◌∷◌, ◌≡◌, push, String, List,
}
use bindings.MongoDb.Grants.{
  actions_of, present, ActionsByTarget, insert, lookup, contains, add_each, add_action,
}

pub lookup-insert :
    (m : ActionsByTarget) (t j : String) (v : List String)
    → lookup (insert m t v) j ≡ (if t == j then some v else lookup m j)
unfolding lookup insert
lookup-insert [] t j v = refl
lookup-insert ((k, w) ∷ m) t j v =
    ground (arith, lookup-insert m t j v, eq_iff k t, eq_iff k j, eq_iff t j)

pub contains-push :
    (xs : List String) (a b : String) → contains (push xs a) b ≡ (contains xs b || a == b)
unfolding contains
contains-push [] a b = ground arith
contains-push (x ∷ xs) a b = ground (arith, contains-push xs a b)

contains-add_action :
    (t : String) (m : ActionsByTarget) (a j b : String)
    → contains (actions_of (add_action t m a) j) b
      ≡ (contains (actions_of m j) b || (t == j && a == b))
unfolding add_action
contains-add_action t m a j b = ground (
  arith,
  lookup-insert m t j (push (actions_of m t) a),
  contains-push (actions_of m t) a b,
  eq_iff t j,
  eq_iff a b,
)

pub contains-add_each :
    (t : String) (m : ActionsByTarget) (new : List String) (j b : String)
    → contains (actions_of (add_each t m new) j) b
      ≡ (contains (actions_of m j) b || (t == j && contains new b))
unfolding add_each contains
contains-add_each t m [] j b = ground arith
contains-add_each t m (a ∷ more) j b =
    ground (arith, contains-add_each t (add_action t m a) more j b, contains-add_action t m a j b)

present-add_action :
    (t : String) (m : ActionsByTarget) (a j : String)
    → present (lookup (add_action t m a) j) ≡ (present (lookup m j) || t == j)
unfolding add_action contains
present-add_action t m a j =
    ground (arith, lookup-insert m t j (push (actions_of m t) a), eq_iff t j)

pub present-add_each :
    (t : String) (m : ActionsByTarget) (a : String) (more : List String) (j : String)
    → present (lookup (add_each t m (a ∷ more)) j) ≡ (present (lookup m j) || t == j)
unfolding add_each
present-add_each t m a [] j = present-add_action t m a j
present-add_each t m a (b ∷ more) j =
    ground (arith, present-add_each t (add_action t m a) b more j, present-add_action t m a j)
