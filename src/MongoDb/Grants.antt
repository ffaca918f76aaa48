-- ===== src/MongoDb/Grants.antt =====
-- validateMongoGrantTarget, buildMongoRolePrivileges, atlasBaseRoles and buildAtlasRoles of
-- mongodb/mongodb_binding.go.
pub mod Merging
pub mod Entitled
pub mod Privileges
pub mod Roles
pub mod Validity
use bindings.Exec.{◌>>-◌, message, err, ok, Result}
use bindings.Common.{
  in_quotes, not, ◌++◌, true, ◌=?◌, ◌||◌, push, some, ◌&&◌, none, [], ◌∷◌, if◌then◌else◌, leb, ◌==◌,
  false, Option, String, Bool, ℕ, has_prefix, List,
}
use bindings.Sdk.{full, read, GrantType, Grant, Sdk}
use Prim.Native.Char.{code}
use Prim.Native.String

-- A letter, a digit, '_', '.' or '-': the class of mongoGrantTargetRegex.
abbrev is_target_char : ℕ → Bool
is_target_char c =
    (leb b'A' c && leb c b'Z')
    || ((leb b'a' c && leb c b'z')
        || ((leb b'0' c && leb c b'9') || ((c =? b'_') || ((c =? b'.') || (c =? b'-')))))

-- mongoGrantTargetRegex.MatchString: one such character or more
unfoldable pub matches_target : String → Bool
matches_target String.[] = false
matches_target (String.◌∷◌ c String.[]) = is_target_char (code c)
matches_target (String.◌∷◌ c s) = is_target_char (code c) && matches_target s

-- The result is "" for all collections.
unfoldable pub validate_grant_target : Sdk → Grant → Result String
unfolding matches_target has_prefix
validate_grant_target sdk g =
    if g.grant_target == sdk.grant_target_all
    then ok ""
    else if g.grant_target == ""
    then err (
        message (
          "grant target is required, use "
          ++ sdk.grant_type_text g.grant_type
          ++ ":* for all collections"))
    else if not (matches_target g.grant_target)
    then err (
        message (
          "invalid grant target "
          ++ in_quotes g.grant_target
          ++ ": only letters, digits and _ . - are allowed"))
    else if has_prefix g.grant_target "system."
    then err (
        message (
          "invalid grant target "
          ++ in_quotes g.grant_target
          ++ ": system collections cannot be granted"))
    else ok g.grant_target

unfoldable pub read_actions_coll : List String
read_actions_coll = "find" ∷ "changeStream" ∷ "collStats" ∷ "listIndexes" ∷ []

unfoldable pub read_actions_db : List String
read_actions_db = "listCollections" ∷ "dbStats" ∷ []

unfoldable pub write_actions_coll : List String
write_actions_coll =
    "insert" ∷ "update" ∷ "remove" ∷ "createCollection" ∷ "createIndex" ∷ "dropCollection"
    ∷ "dropIndex" ∷ "collMod" ∷ "convertToCapped" ∷ []

unfoldable pub write_actions_db : List String
write_actions_db = "renameCollectionSameDB" ∷ []

-- slices.Contains
unfoldable pub contains : List String → String → Bool
contains [] a = false
contains (x ∷ xs) a = x == a || contains xs a

-- The map `actionsByTarget`, and the slice `targets` of its keys in the order of their arrival.
abbrev pub ActionsByTarget : Type 0
ActionsByTarget = List (String × List String)

unfoldable pub lookup : ActionsByTarget → String → Option (List String)
lookup [] t = none
lookup ((k, v) ∷ m) t = if k == t then some v else lookup m t

-- m[t], nil for a missing key
abbrev pub or_nil : Option (List String) → List String
or_nil none = []
or_nil (some v) = v

abbrev pub actions_of : ActionsByTarget → String → List String
actions_of m t = or_nil (lookup m t)

unfoldable pub insert : ActionsByTarget → String → List String → ActionsByTarget
insert [] t v = (t, v) ∷ []
insert ((k, w) ∷ m) t v = if k == t then (k, v) ∷ m else (k, w) ∷ insert m t v

pub record Merged : Type 0 where
  pub targets : List String
  pub by_target : ActionsByTarget

-- One round of the inner loop of `addActions`.
unfoldable pub add_action : String → ActionsByTarget → String → ActionsByTarget
unfolding contains lookup insert
add_action t m a = if contains (actions_of m t) a then m else insert m t (push (actions_of m t) a)

unfoldable pub add_each : String → ActionsByTarget → List String → ActionsByTarget
unfolding add_action
add_each t m [] = m
add_each t m (a ∷ more) = add_each t (add_action t m a) more

abbrev pub present : Option (List String) → Bool
present none = false
present (some _) = true

-- The closure `addActions`.
unfoldable pub add_actions : String → List String → Merged → Merged
unfolding add_each
add_actions t new m = record {
  targets = if present (lookup m.by_target t) then m.targets else push m.targets t;
  by_target = add_each t m.by_target new;
}

-- The branches of `switch grant.GrantType`, at a validated target.
unfoldable pub add_grant : Sdk → GrantType → String → Merged → Result Merged
unfolding add_actions
add_grant sdk read t m =
    let m1 = add_actions t read_actions_coll m in
    ok (if t == "" then add_actions t read_actions_db m1 else m1)
add_grant sdk full t m =
    let m1 = add_actions t write_actions_coll (add_actions t read_actions_coll m) in
    ok (if t == "" then add_actions t write_actions_db (add_actions t read_actions_db m1) else m1)
add_grant sdk kind t m =
    err (message ("unsupported grant type " ++ sdk.grant_type_text kind ++ " for mongodb"))

unfoldable pub merge_grants : Sdk → List Grant → Merged → Result Merged
unfolding validate_grant_target add_grant
merge_grants sdk [] m = ok m
merge_grants sdk (g ∷ gs) m = validate_grant_target sdk g >>- λ t.
    add_grant sdk g.grant_type t m >>- λ m'. merge_grants sdk gs m'

-- One document of a role's privileges array.
pub record Privilege : Type 0 where
  pub database : String
  pub collection : String
  pub actions : List String

unfoldable pub to_privileges : String → ActionsByTarget → List String → List Privilege
to_privileges database m [] = []
to_privileges database m (t ∷ ts) =
    record { database = database; collection = t; actions = actions_of m t }
    ∷ to_privileges database m ts

unfoldable pub build_role_privileges : Sdk → String → List Grant → Result (List Privilege)
unfolding merge_grants to_privileges
build_role_privileges sdk database grants =
    merge_grants sdk grants (record { targets = []; by_target = [] }) >>- λ m.
    ok (to_privileges database m.by_target m.targets)

pub record AtlasRole : Type 0 where
  pub role_name : String
  pub database_name : String
  pub collection_name : String

-- `==` on the struct, and slices.Contains
abbrev pub same_role : AtlasRole → AtlasRole → Bool
same_role a b =
    a.role_name == b.role_name
    && (a.database_name == b.database_name && a.collection_name == b.collection_name)

unfoldable pub contains_role : List AtlasRole → AtlasRole → Bool
contains_role [] r = false
contains_role (x ∷ xs) r = same_role x r || contains_role xs r

abbrev pub atlas_role : String → String → String → AtlasRole
atlas_role name database collection = record {
  role_name = name;
  database_name = database;
  collection_name = collection;
}

abbrev pub baseline_role : AtlasRole
baseline_role = atlas_role "read" "cl_baseline_none_db" "cl_baseline_none"

unfoldable pub atlas_base_roles : String → List AtlasRole
atlas_base_roles database =
    atlas_role "readWrite" database "" ∷ atlas_role "dbAdmin" database "" ∷ []

-- The closure `addRole`.
unfoldable pub add_role : AtlasRole → List AtlasRole → List AtlasRole
unfolding contains_role
add_role r roles = if contains_role roles r then roles else push roles r

-- The role that a grant stands for.
unfoldable pub grant_role : Sdk → String → GrantType → String → Result AtlasRole
grant_role sdk database read t = ok (atlas_role "read" database t)
grant_role sdk database full t = ok (atlas_role "readWrite" database t)
grant_role sdk database kind t =
    err (message ("unsupported grant type " ++ sdk.grant_type_text kind ++ " for atlas"))

unfoldable pub add_grant_roles :
    Sdk → String → List Grant → List AtlasRole → Result (List AtlasRole)
unfolding validate_grant_target grant_role add_role
add_grant_roles sdk database [] roles = ok roles
add_grant_roles sdk database (g ∷ gs) roles = validate_grant_target sdk g >>- λ t.
    grant_role sdk database g.grant_type t >>- λ r.
    add_grant_roles sdk database gs (add_role r roles)

unfoldable pub build_atlas_roles : Sdk → String → List Grant → Result (List AtlasRole)
unfolding add_grant_roles
build_atlas_roles sdk database grants = add_grant_roles sdk database grants (baseline_role ∷ [])
