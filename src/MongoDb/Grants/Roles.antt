-- ===== src/MongoDb/Grants/Roles.antt =====
-- The roles of a derived Atlas user are exactly the placeholder and what its grants stand for.
use bindings.MongoDb.Grants.{
  atlas_role, validate_grant_target, baseline_role, same_role, add_role, AtlasRole, add_grant_roles,
  grant_role, contains_role, build_atlas_roles,
}
use bindings.Exec.{◌>>-◌, >>--eq-ok, ok}
use bindings.Common.{
  refl, ap, sym, Bool, eq_iff, inr, [], true, inl, ◌||◌, false, arith, push, Bool-cases, ◌≡◌, ◌∷◌,
  String, List,
}
use bindings.Sdk.{Grant, Sdk, read, full}
use bindings.MongoDb.Grants.Privileges.{ok-inj}
use bindings.MongoDb.Grants.Entitled.{target_of, validate_grant_target-ok}

abbrev grants_role : Sdk → String → Grant → AtlasRole → Bool
grants_role sdk database g r = elim g.grant_type [
  | read ↦ same_role (atlas_role "read" database (target_of sdk g)) r
  | full ↦ same_role (atlas_role "readWrite" database (target_of sdk g)) r
  | _ ↦ false
]

abbrev pub any_role : Sdk → String → List Grant → AtlasRole → Bool
any_role sdk database [] r = false
any_role sdk database (g ∷ gs) r = grants_role sdk database g r || any_role sdk database gs r

abbrev pub DistinctRoles : List AtlasRole → Type 0
DistinctRoles [] = Unit
DistinctRoles (x ∷ xs) = (contains_role xs x ≡ false) × DistinctRoles xs

contains_role-push :
    (xs : List AtlasRole) (a b : AtlasRole)
    → contains_role (push xs a) b ≡ (contains_role xs b || same_role a b)
unfolding contains_role
contains_role-push [] a b = ground arith
contains_role-push (x ∷ xs) a b = ground (arith, contains_role-push xs a b)

same_role_sym : (a b : AtlasRole) → same_role a b ≡ same_role b a
same_role_sym a b = ground (
  arith,
  eq_iff a.role_name b.role_name,
  eq_iff b.role_name a.role_name,
  eq_iff a.database_name b.database_name,
  eq_iff b.database_name a.database_name,
  eq_iff a.collection_name b.collection_name,
  eq_iff b.collection_name a.collection_name,
)

-- A role in the list counts for every role that is the same.
same_role_trans : (a b c : AtlasRole) → same_role a b ≡ true → same_role b c ≡ same_role a c
same_role_trans a b c h = ground (
  arith,
  eq_iff a.role_name b.role_name,
  eq_iff a.database_name b.database_name,
  eq_iff a.collection_name b.collection_name,
)

contains_role-same :
    (xs : List AtlasRole) (a b : AtlasRole)
    → contains_role xs a ≡ true
    → same_role a b ≡ true
    → contains_role xs b ≡ true
unfolding contains_role
contains_role-same [] a b h e = cc
contains_role-same (x ∷ xs) a b h e = elim (Bool-cases (same_role x a)) [
  | inl here ↦ ground (arith, same_role_trans x a b here)
  | inr off ↦ ground (arith, contains_role-same xs a b (ground arith) e)
]

contains_role-add_role :
    (roles : List AtlasRole) (a b : AtlasRole)
    → contains_role (add_role a roles) b ≡ (contains_role roles b || same_role a b)
unfolding add_role
contains_role-add_role roles a b = elim (Bool-cases (contains_role roles a)) [
  | inl old ↦ elim (Bool-cases (same_role a b)) [
    | inl same ↦ ground (arith, contains_role-same roles a b old same)
    | inr off ↦ ground arith
  ]
  | inr new ↦ ground (arith, contains_role-push roles a b)
]

DistinctRoles-push :
    (xs : List AtlasRole) (a : AtlasRole)
    → DistinctRoles xs
    → contains_role xs a ≡ false
    → DistinctRoles (push xs a)
unfolding contains_role
DistinctRoles-push [] a d h = (refl, tt)
DistinctRoles-push (x ∷ xs) a (p, d) h = (
  ground (arith, contains_role-push xs a x, same_role_sym x a),
  DistinctRoles-push xs a d (ground arith),
)

-- What is kept by every round: the roles are distinct, and the first is the placeholder.
abbrev pub StartsWithBaseline : List AtlasRole → Type 0
StartsWithBaseline roles = (rest : List AtlasRole) × (roles ≡ baseline_role ∷ rest)

add_role-Kept :
    (a : AtlasRole) (roles : List AtlasRole)
    → DistinctRoles roles × StartsWithBaseline roles
    → DistinctRoles (add_role a roles) × StartsWithBaseline (add_role a roles)
unfolding add_role
add_role-Kept a roles (d, (rest, same)) = elim (Bool-cases (contains_role roles a)) [
  | inl old ↦ rw old (d, (rest, same))
  | inr new ↦ rw new (DistinctRoles-push roles a d new, (push rest a, ap (λ l. push l a) same))
]

grant_role-same :
    (sdk : Sdk) (database t : String) (g : Grant) (r b : AtlasRole)
    → t ≡ target_of sdk g
    → grant_role sdk database g.grant_type t ≡ ok r
    → same_role r b ≡ grants_role sdk database g b
unfolding grant_role
grant_role-same sdk database t g r b same e = ground arith

-- What holds of a result of the loop that began with `roles`.
abbrev Built : Sdk → String → List Grant → List AtlasRole → List AtlasRole → Type 0
Built sdk database grants roles out =
    ((r : AtlasRole)
      → contains_role out r ≡ (contains_role roles r || any_role sdk database grants r))
    × DistinctRoles out
    × StartsWithBaseline out

add_grant_roles-Built :
    (sdk : Sdk) (database : String) (grants : List Grant) (roles out : List AtlasRole)
    → DistinctRoles roles × StartsWithBaseline roles
    → add_grant_roles sdk database grants roles ≡ ok out
    → Built sdk database grants roles out
unfolding add_grant_roles
add_grant_roles-Built sdk database [] roles out k e =
    rw (sym (ok-inj e)) (λ r. ground arith, k.0, k.1)
add_grant_roles-Built sdk database (g ∷ gs) roles out k e =
    let (t, valid, e1) =
      >>--eq-ok (validate_grant_target sdk g)
        (λ t. grant_role sdk database g.grant_type t >>- λ r.
          add_grant_roles sdk database gs (add_role r roles))
        e in
    let (r, found, e2) =
      >>--eq-ok (grant_role sdk database g.grant_type t)
        (λ r. add_grant_roles sdk database gs (add_role r roles)) e1 in
    let (later, distinct, first) =
      add_grant_roles-Built sdk database gs (add_role r roles) out (add_role-Kept r roles k) e2 in
    (
      λ b. ground (
        arith,
        later b,
        contains_role-add_role roles r b,
        grant_role-same sdk database t g r b (validate_grant_target-ok sdk g t valid).0 found,
      ),
      distinct,
      first,
    )

-- The roles built for a derived Atlas user are the placeholder, which comes first, so that the
-- list is never empty, and exactly the roles that its grants stand for; none is listed twice.
pub build_atlas_roles-exact :
    (sdk : Sdk) (database : String) (grants : List Grant) (roles : List AtlasRole)
    → build_atlas_roles sdk database grants ≡ ok roles
    → ((r : AtlasRole)
        → contains_role roles r ≡ (same_role baseline_role r || any_role sdk database grants r))
      × DistinctRoles roles
      × StartsWithBaseline roles
unfolding build_atlas_roles contains_role
build_atlas_roles-exact sdk database grants roles e =
    let (exact, distinct, first) =
      add_grant_roles-Built sdk database grants (baseline_role ∷ []) roles ((refl, tt), ([], refl))
        e in
    (λ r. ground (arith, exact r), distinct, first)
