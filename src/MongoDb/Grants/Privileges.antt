-- ===== src/MongoDb/Grants/Privileges.antt =====
-- The privileges of a role are exactly what its grants entitle to.
use bindings.MongoDb.Grants.Entitled.{
  merge_grants-contains, merge_grants-IsKeyed, Distinct, any_entitled, IsKeyed, collections, allows,
}
use bindings.Common.{sym, eq_iff, arith, refl, All, ap, ◌&&◌, ◌∷◌, ◌≡◌, [], List, String}
use bindings.Exec.{>>--eq-ok, ok}
use bindings.MongoDb.Grants.{
  merge_grants, actions_of, Privilege, contains, ActionsByTarget, Merged, lookup, to_privileges,
  build_role_privileges,
}
use bindings.Sdk.{Grant, Sdk}

allows-to_privileges :
    (database : String) (m : ActionsByTarget) (ts : List String) (t a : String)
    → allows (to_privileges database m ts) t a ≡ (contains ts t && contains (actions_of m t) a)
unfolding to_privileges contains
allows-to_privileges database m [] t a = refl
allows-to_privileges database m (k ∷ ts) t a =
    ground (arith, allows-to_privileges database m ts t a, eq_iff k t)

collections-to_privileges :
    (database : String) (m : ActionsByTarget) (ts : List String)
    → collections (to_privileges database m ts) ≡ ts
unfolding to_privileges
collections-to_privileges database m [] = refl
collections-to_privileges database m (k ∷ ts) =
    ap (λ l. k ∷ l) (collections-to_privileges database m ts)

abbrev pub InDatabase : String → List Privilege → Type 0
InDatabase database = All (λ p. p.database ≡ database)

to_privileges-InDatabase :
    (database : String) (m : ActionsByTarget) (ts : List String)
    → InDatabase database (to_privileges database m ts)
unfolding to_privileges
to_privileges-InDatabase database m [] = tt
to_privileges-InDatabase database m (k ∷ ts) = (refl, to_privileges-InDatabase database m ts)

pub ok-inj : {A : Type 0} {a b : A} → ok a ≡ ok b → a ≡ b
ok-inj e = cc

abbrev start : Merged
start = record { targets = []; by_target = [] }

start-IsKeyed : IsKeyed start
unfolding lookup contains
start-IsKeyed = record { keys = λ t. refl; distinct = tt }

built :
    (sdk : Sdk) (database : String) (grants : List Grant) (m : Merged)
    → merge_grants sdk grants start ≡ ok m
    → let privileges = to_privileges database m.by_target m.targets in
      ((t a : String) → allows privileges t a ≡ any_entitled sdk grants t a)
      × Distinct (collections privileges)
      × InDatabase database privileges
unfolding lookup contains
built sdk database grants m merged =
    let k = merge_grants-IsKeyed sdk grants start m start-IsKeyed merged in
    (
      λ t a. ground (
        arith,
        allows-to_privileges database m.by_target m.targets t a,
        merge_grants-contains sdk grants start m t a merged,
        k.keys t,
      ),
      rw (collections-to_privileges database m.by_target m.targets) k.distinct,
      to_privileges-InDatabase database m.by_target m.targets,
    )

-- The role built for a derived account allows an action on a collection exactly when one of the
-- grants is about it and its type stands for the action; no collection has two privileges, and
-- every privilege is on the account's own database.
pub build_role_privileges-exact :
    (sdk : Sdk) (database : String) (grants : List Grant) (privileges : List Privilege)
    → build_role_privileges sdk database grants ≡ ok privileges
    → ((t a : String) → allows privileges t a ≡ any_entitled sdk grants t a)
      × Distinct (collections privileges)
      × InDatabase database privileges
unfolding build_role_privileges lookup contains
build_role_privileges-exact sdk database grants privileges e =
    let (m, merged, e1) =
      >>--eq-ok (merge_grants sdk grants start)
        (λ m. ok (to_privileges database m.by_target m.targets)) e in
    rw (sym (ok-inj e1)) (built sdk database grants m merged)
