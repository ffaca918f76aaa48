-- ===== src/MongoDb/Grants/Entitled.antt =====
-- What the grants entitle to, and what the merged actions of buildMongoRolePrivileges hold.
use bindings.Common.{
  ap, true, ◌∙◌, refl, inr, eq_iff, inl, arith, ◌&&◌, push, [], Bool-cases, ◌||◌, ◌∷◌, ◌≡◌, false,
  ◌==◌, if◌then◌else◌, String, Bool, List,
}
use bindings.MongoDb.Grants.{
  merge_grants, validate_grant_target, lookup, write_actions_db, actions_of, write_actions_coll,
  present, read_actions_db, Privilege, read_actions_coll, add_grant, add_actions, contains, Merged,
}
use bindings.Exec.{>>--eq-ok, ok, ◌>>-◌}
use bindings.MongoDb.Grants.Merging.{contains-add_each, present-add_each, contains-push}
use mathlib.Core.Path.{subst}
use bindings.Sdk.{full, read, Grant, GrantType, Sdk}

-- The collection that a grant is about, "" for all, and the actions that a grant type stands for.
abbrev pub is_everywhere : Sdk → Grant → Bool
is_everywhere sdk g = g.grant_target == sdk.grant_target_all

abbrev pub target_of : Sdk → Grant → String
target_of sdk g = if is_everywhere sdk g then "" else g.grant_target

abbrev pub entitled : GrantType → Bool → String → Bool
entitled read everywhere a =
    contains read_actions_coll a || (everywhere && contains read_actions_db a)
entitled full everywhere a =
    contains read_actions_coll a
    || (contains write_actions_coll a
        || (everywhere && (contains read_actions_db a || contains write_actions_db a)))
entitled _ everywhere a = false

-- Some grant of the list is about the collection and stands for the action.
abbrev pub any_entitled : Sdk → List Grant → String → String → Bool
any_entitled sdk [] t a = false
any_entitled sdk (g ∷ gs) t a =
    (target_of sdk g == t && entitled g.grant_type (is_everywhere sdk g) a)
    || any_entitled sdk gs t a

-- Some privilege of the role allows the action on the collection.
abbrev pub allows : List Privilege → String → String → Bool
allows [] t a = false
allows (p ∷ ps) t a = (p.collection == t && contains p.actions a) || allows ps t a

abbrev pub Distinct : List String → Type 0
Distinct [] = Unit
Distinct (x ∷ xs) = (contains xs x ≡ false) × Distinct xs

abbrev pub collections : List Privilege → List String
collections [] = []
collections (p ∷ ps) = p.collection ∷ collections ps

Distinct-push :
    (xs : List String) (a : String) → Distinct xs → contains xs a ≡ false → Distinct (push xs a)
unfolding contains
Distinct-push [] a d h = (refl, tt)
Distinct-push (x ∷ xs) a (p, d) h = (
  ground (arith, contains-push xs a x, eq_iff a x, eq_iff x a),
  Distinct-push xs a d (ground arith),
)

-- The targets are the keys of the map, each once.
pub record IsKeyed (m : Merged) : Type 0 where
  pub keys : (t : String) → contains m.targets t ≡ present (lookup m.by_target t)
  pub distinct : Distinct m.targets

add_actions-IsKeyed :
    (t a : String) (more : List String) (m : Merged)
    → IsKeyed m
    → IsKeyed (add_actions t (a ∷ more) m)
unfolding add_actions
add_actions-IsKeyed t a more m k = elim (Bool-cases (present (lookup m.by_target t))) [
  | inl old ↦ record {
    keys =
        λ j. rw old (ground (arith, k.keys j, present-add_each t m.by_target a more j, eq_iff t j));
    distinct = rw old k.distinct;
  }
  | inr new ↦ record {
    keys = λ j. rw new (
        ground
          (arith, k.keys j, present-add_each t m.by_target a more j, contains-push m.targets t j));
    distinct = rw new (Distinct-push m.targets t k.distinct (k.keys t ∙ new));
  }
]

abbrev Keeps : List String → Type 0
Keeps actions = (t : String) (m : Merged) → IsKeyed m → IsKeyed (add_actions t actions m)

read_actions_coll-Keeps : Keeps read_actions_coll
unfolding read_actions_coll
read_actions_coll-Keeps t m k = add_actions-IsKeyed t _ _ m k

read_actions_db-Keeps : Keeps read_actions_db
unfolding read_actions_db
read_actions_db-Keeps t m k = add_actions-IsKeyed t _ _ m k

write_actions_coll-Keeps : Keeps write_actions_coll
unfolding write_actions_coll
write_actions_coll-Keeps t m k = add_actions-IsKeyed t _ _ m k

write_actions_db-Keeps : Keeps write_actions_db
unfolding write_actions_db
write_actions_db-Keeps t m k = add_actions-IsKeyed t _ _ m k

IsKeyed-if : (b : Bool) (m n : Merged) → IsKeyed m → IsKeyed n → IsKeyed (if b then m else n)
IsKeyed-if true m n k l = k
IsKeyed-if false m n k l = l

add_grant-IsKeyed :
    (sdk : Sdk) (kind : GrantType) (t : String) (m m' : Merged)
    → IsKeyed m
    → add_grant sdk kind t m ≡ ok m'
    → IsKeyed m'
unfolding add_grant
add_grant-IsKeyed sdk read t m m' k e =
    let k1 = read_actions_coll-Keeps t m k in
    subst IsKeyed (cc) (IsKeyed-if (t == "") _ _ (read_actions_db-Keeps t _ k1) k1)
add_grant-IsKeyed sdk full t m m' k e =
    let k1 = write_actions_coll-Keeps t _ (read_actions_coll-Keeps t m k) in
    subst IsKeyed (cc)
      (IsKeyed-if (t == "") _ _ (write_actions_db-Keeps t _ (read_actions_db-Keeps t _ k1)) k1)
add_grant-IsKeyed sdk _ t m m' k e = cc

contains-add_actions :
    (t : String) (new : List String) (m : Merged) (j b : String)
    → contains (actions_of (add_actions t new m).by_target j) b
      ≡ (contains (actions_of m.by_target j) b || (t == j && contains new b))
unfolding add_actions
contains-add_actions t new m j b = contains-add_each t m.by_target new j b

add_grant-contains :
    (sdk : Sdk) (kind : GrantType) (t : String) (m m' : Merged) (j b : String)
    → add_grant sdk kind t m ≡ ok m'
    → contains (actions_of m'.by_target j) b
      ≡ (contains (actions_of m.by_target j) b || (t == j && entitled kind (t == "") b))
unfolding add_grant
add_grant-contains sdk read t m m' j b e =
    let m1 = add_actions t read_actions_coll m in
    ground (
      arith,
      contains-add_actions t read_actions_coll m j b,
      contains-add_actions t read_actions_db m1 j b,
    )
add_grant-contains sdk full t m m' j b e =
    let m1 = add_actions t read_actions_coll m in
    let m2 = add_actions t write_actions_coll m1 in
    let m3 = add_actions t read_actions_db m2 in
    ground (
      arith,
      contains-add_actions t read_actions_coll m j b,
      contains-add_actions t write_actions_coll m1 j b,
      contains-add_actions t read_actions_db m2 j b,
      contains-add_actions t write_actions_db m3 j b,
    )
add_grant-contains sdk _ t m m' j b e = cc

pub validate_grant_target-ok :
    (sdk : Sdk) (g : Grant) (t : String)
    → validate_grant_target sdk g ≡ ok t
    → (t ≡ target_of sdk g) × ((t == "") ≡ is_everywhere sdk g)
unfolding validate_grant_target
validate_grant_target-ok sdk g t e =
    (ground arith, ground (arith, eq_iff t "", eq_iff t g.grant_target, eq_iff g.grant_target ""))

pub merge_grants-IsKeyed :
    (sdk : Sdk) (gs : List Grant) (m m' : Merged)
    → IsKeyed m
    → merge_grants sdk gs m ≡ ok m'
    → IsKeyed m'
unfolding merge_grants
merge_grants-IsKeyed sdk [] m m' k e = subst IsKeyed (cc) k
merge_grants-IsKeyed sdk (g ∷ gs) m m' k e =
    let (t, valid, e1) =
      >>--eq-ok (validate_grant_target sdk g)
        (λ t. add_grant sdk g.grant_type t m >>- λ m1. merge_grants sdk gs m1) e in
    let (m1, added, e2) =
      >>--eq-ok (add_grant sdk g.grant_type t m) (λ m1. merge_grants sdk gs m1) e1 in
    merge_grants-IsKeyed sdk gs m1 m' (add_grant-IsKeyed sdk g.grant_type t m m1 k added) e2

widen : (c x y z e f : Bool) → c ≡ (x || y) → z ≡ (c || e) → y ≡ f → z ≡ (x || (f || e))
widen c x y z e f p q r = ground arith

entitled-same :
    (sdk : Sdk) (g : Grant) (t j b : String)
    → t ≡ target_of sdk g
    → (t == "") ≡ is_everywhere sdk g
    → (t == j && entitled g.grant_type (t == "") b)
      ≡ (target_of sdk g == j && entitled g.grant_type (is_everywhere sdk g) b)
entitled-same sdk g t j b same everywhere =
    ap (λ v. t == j && entitled g.grant_type v b) everywhere
    ∙ ap (λ u. u == j && entitled g.grant_type (is_everywhere sdk g) b) same

pub merge_grants-contains :
    (sdk : Sdk) (gs : List Grant) (m m' : Merged) (j b : String)
    → merge_grants sdk gs m ≡ ok m'
    → contains (actions_of m'.by_target j) b
      ≡ (contains (actions_of m.by_target j) b || any_entitled sdk gs j b)
unfolding merge_grants
merge_grants-contains sdk [] m m' j b e = ground arith
merge_grants-contains sdk (g ∷ gs) m m' j b e =
    let (t, valid, e1) =
      >>--eq-ok (validate_grant_target sdk g)
        (λ t. add_grant sdk g.grant_type t m >>- λ m1. merge_grants sdk gs m1) e in
    let (m1, added, e2) =
      >>--eq-ok (add_grant sdk g.grant_type t m) (λ m1. merge_grants sdk gs m1) e1 in
    let (same, everywhere) = validate_grant_target-ok sdk g t valid in
    let here = add_grant-contains sdk g.grant_type t m m1 j b added in
    let later = merge_grants-contains sdk gs m1 m' j b e2 in
    widen _ _ _ _ _ _ here later (entitled-same sdk g t j b same everywhere)
