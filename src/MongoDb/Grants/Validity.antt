-- ===== src/MongoDb/Grants/Validity.antt =====
-- Which lists of grants the MongoDB provider accepts: the same on both kinds of service.
use bindings.Exec.{err, ok, ◌>>-◌, Result, is_ok}
use bindings.Sdk.{create, other, GrantType, Grant, Sdk, read, full}
use bindings.Common.{false, ◌∙◌, refl, [], ◌&&◌, arith, ◌≡◌, ◌∷◌, true, Bool, String, List}
use bindings.MongoDb.Grants.{
  add_role, baseline_role, validate_grant_target, AtlasRole, Merged, add_grant, grant_role,
  build_atlas_roles, merge_grants, build_role_privileges, add_grant_roles,
}

abbrev is_supported : GrantType → Bool
is_supported read = true
is_supported full = true
is_supported _ = false

-- The type is read or full, and the target is valid.
abbrev pub is_grantable : Sdk → Grant → Bool
is_grantable sdk g = is_ok (validate_grant_target sdk g) && is_supported g.grant_type

abbrev pub all_grantable : Sdk → List Grant → Bool
all_grantable sdk [] = true
all_grantable sdk (g ∷ gs) = is_grantable sdk g && all_grantable sdk gs

add_grant-cases :
    (sdk : Sdk) (kind : GrantType) (t : String) (m : Merged)
    → is_ok (add_grant sdk kind t m) ≡ is_supported kind
unfolding add_grant
add_grant-cases sdk read t m = refl
add_grant-cases sdk full t m = refl
add_grant-cases sdk create t m = refl
add_grant-cases sdk (other _) t m = refl

grant_role-cases :
    (sdk : Sdk) (database : String) (kind : GrantType) (t : String)
    → is_ok (grant_role sdk database kind t) ≡ is_supported kind
unfolding grant_role
grant_role-cases sdk database read t = refl
grant_role-cases sdk database full t = refl
grant_role-cases sdk database create t = refl
grant_role-cases sdk database (other _) t = refl

and_assoc : (a b c : Bool) → (a && (b && c)) ≡ ((a && b) && c)
and_assoc a b c = ground arith

-- A chain succeeds when its parts do.
chain-is_ok :
    {A B : Type 0} (r : Result A) (f : A → Result B) (b c : Bool)
    → is_ok r ≡ b
    → ((a : A) → is_ok (f a) ≡ c)
    → is_ok (r >>- f) ≡ (b && c)
chain-is_ok (ok a) f true c h k = k a
chain-is_ok (ok a) f false c h k = cc
chain-is_ok (err _) f true c h k = cc
chain-is_ok (err _) f false c h k = refl

merge_grants-is_ok :
    (sdk : Sdk) (gs : List Grant) (m : Merged)
    → is_ok (merge_grants sdk gs m) ≡ all_grantable sdk gs
unfolding merge_grants
merge_grants-is_ok sdk [] m = refl
merge_grants-is_ok sdk (g ∷ gs) m =
    chain-is_ok (validate_grant_target sdk g) _ _ _ refl (λ t.
      chain-is_ok (add_grant sdk g.grant_type t m) _ _ _ (add_grant-cases sdk g.grant_type t m)
        (λ m'. merge_grants-is_ok sdk gs m'))
    ∙ and_assoc (is_ok (validate_grant_target sdk g)) (is_supported g.grant_type)
        (all_grantable sdk gs)

add_grant_roles-is_ok :
    (sdk : Sdk) (database : String) (gs : List Grant) (roles : List AtlasRole)
    → is_ok (add_grant_roles sdk database gs roles) ≡ all_grantable sdk gs
unfolding add_grant_roles
add_grant_roles-is_ok sdk database [] roles = refl
add_grant_roles-is_ok sdk database (g ∷ gs) roles =
    chain-is_ok (validate_grant_target sdk g) _ _ _ refl (λ t.
      chain-is_ok (grant_role sdk database g.grant_type t) _ _ _
        (grant_role-cases sdk database g.grant_type t)
        (λ r. add_grant_roles-is_ok sdk database gs (add_role r roles)))
    ∙ and_assoc (is_ok (validate_grant_target sdk g)) (is_supported g.grant_type)
        (all_grantable sdk gs)

-- A list of grants is accepted for a self-hosted role exactly when it is accepted for an Atlas
-- user: when each grant reads or is full and has a valid target.
pub build-is_ok :
    (sdk : Sdk) (database : String) (grants : List Grant)
    → (is_ok (build_role_privileges sdk database grants) ≡ all_grantable sdk grants)
      × (is_ok (build_atlas_roles sdk database grants) ≡ all_grantable sdk grants)
unfolding build_role_privileges build_atlas_roles
build-is_ok sdk database grants = (
  ground (arith, merge_grants-is_ok sdk grants (record { targets = []; by_target = [] })),
  add_grant_roles-is_ok sdk database grants (baseline_role ∷ []),
)
