-- ===== src/MongoDb/Users/Atlas.antt =====
-- What setUserGrants sends for an Atlas account.
use bindings.Common.{
  refl, eq_iff, [], not, ◌=?◌, ◌++◌, ◌≢◌, ◌||◌, ◌⊎◌, ◌==◌, get, ◌&&◌, arith, Bool-cases, leb, List,
  ◌≡◌, String, GoMap, none, some, ◌∷◌, Option, Bool, inl, inr, true, false,
}
use bindings.MongoDb.Client.{
  atlas_error_status, of_user, of_roles, users_path, user_path, post, patch, create_database_user,
  check_status, update_database_user_roles, sent, atlas_do, Cluster, Request, History,
}
use bindings.MongoDb.Users.{or_else, new_atlas_database_user, set_user_grants, set_atlas_roles}
use bindings.Exec.{Result-cases, describe, err, Exec, Done, Result, is_ok, ok}
use bindings.MongoDb.Grants.{build_atlas_roles, AtlasRole}
use bindings.Sdk.{Grant, Sdk}
use bindings.MongoDb.Accounts.{MongoDb}

-- The newest request, if the API answered it with a status between 200 and 299.
abbrev pub accepted_if : Bool → Request → Option Request
accepted_if true r = some r
accepted_if false r = none

abbrev pub newest_accepted : History → Option Request
newest_accepted (sent r (ok answer) ∷ _) =
    accepted_if (leb 200 answer.status && leb answer.status 299) r
newest_accepted _ = none

module _ (sdk : Sdk) (cluster : Cluster) (b : MongoDb) where
  pub atlas_do-accepted :
      (request : Request) (h : History)
      → is_ok (atlas_do cluster request h).0 ≡ true
      → newest_accepted (atlas_do cluster request h).1 ≡ some request
  unfolding atlas_do check_status
  atlas_do-accepted request h fine = ground arith

  -- The two requests by which a permission set may be put in place.
  abbrev pub patch_request : String → List AtlasRole → Request
  patch_request name roles = record {
    method = patch;
    path = user_path cluster (get b.service_config "project_id") name;
    body = of_roles roles;
  }

  abbrev pub post_request : String → String → List AtlasRole → Request
  post_request name password roles = record {
    method = post;
    path = users_path cluster (get b.service_config "project_id");
    body = of_user (new_atlas_database_user b name password roles);
  }

  abbrev pub Accepts : String → String → List AtlasRole → Result Done × History → Type 0
  Accepts name password roles (ok _, h') =
      (newest_accepted h' ≡ some (patch_request name roles))
      ⊎ ((newest_accepted h' ≡ some (post_request name password roles)) × (password ≢ ""))
  Accepts name password roles (err _, h') = Unit

  after_patch :
      (name password : String) (roles : List AtlasRole) (out : Result Done × History)
      (again : Exec History Unit)
      → (is_ok out.0 ≡ true → newest_accepted out.1 ≡ some (patch_request name roles))
      → ((h : History)
          → is_ok (again h).0 ≡ true
          → newest_accepted (again h).1 ≡ some (post_request name password roles))
      → Accepts name password roles (
          describe
            ("error applying grants to atlas user " ++ name)
            (or_else (λ e. (atlas_error_status e =? 404) && not (password == "")) (λ _. out) again)
            [])
  after_patch name password roles (ok _, h') again patched posted = inl (patched refl)
  after_patch name password roles (err e, h') again patched posted =
      decide ((atlas_error_status e =? 404) && not (password == ""))
        (λ gone. ground (arith, eq_iff password ""))
    where
      mended :
          (out : Result Done × History)
          → (is_ok out.0 ≡ true → newest_accepted out.1 ≡ some (post_request name password roles))
          → password ≢ ""
          → Accepts name password roles
              (describe ("error applying grants to atlas user " ++ name) (λ _. out) [])
      mended (ok _, h'') p named = inr (p refl, named)
      mended (err _, h'') p named = tt

      decide :
          (gone : Bool)
          → (gone ≡ true → password ≢ "")
          → Accepts name password roles (
              describe
                ("error applying grants to atlas user " ++ name)
                (λ _. elim gone [ true ↦ again h' | false ↦ (err e, h') ])
                [])
      decide true named = mended (again h') (posted h') (named refl)
      decide false named = tt

  set_atlas_roles-Accepts :
      (name password : String) (roles : List AtlasRole) (h : History)
      → Accepts name password roles (set_atlas_roles sdk cluster b name password roles h)
  unfolding set_atlas_roles update_database_user_roles create_database_user
  set_atlas_roles-Accepts name password roles h =
      after_patch name password roles (atlas_do cluster (patch_request name roles) h)
        (atlas_do cluster (post_request name password roles))
        (atlas_do-accepted (patch_request name roles) h)
        (atlas_do-accepted (post_request name password roles))

  -- The whole of a successful setUserGrants.
  abbrev pub GrantsAccepted : GoMap → List Grant → Result Done × History → Type 0
  GrantsAccepted account grants (ok u, h') =
      (roles : List AtlasRole) × (build_atlas_roles sdk (get account "database") grants ≡ ok roles)
      × Accepts (get account "username") (get account "password") roles (ok u, h')
  GrantsAccepted account grants (err _, h') = Unit

  accepted :
      (account : GoMap) (grants : List Grant) (roles : List AtlasRole) (out : Result Done × History)
      → build_atlas_roles sdk (get account "database") grants ≡ ok roles
      → Accepts (get account "username") (get account "password") roles out
      → GrantsAccepted account grants out
  accepted account grants roles (ok _, h') built a = (roles, built, a)
  accepted account grants roles (err _, h') built a = tt

  -- A setUserGrants that succeeds on Atlas has built the roles of all the grants, and the API
  -- accepted, as the last request, either the replacement of the user's roles by them or, when
  -- the account has a password, the creation of the user with them and the configured scope.
  pub set_user_grants-GrantsAccepted :
      b.is_atlas ≡ true
      → (account : GoMap) (grants : List Grant) (h : History)
      → GrantsAccepted account grants (set_user_grants sdk cluster b account grants h)
  unfolding set_user_grants
  set_user_grants-GrantsAccepted atlas account grants h =
      elim (Bool-cases (get account "username" == "" || get account "database" == "")) [
        | inl missing ↦ rw missing tt
        | inr present ↦
            rw (present, atlas)
              (elim (Result-cases (build_atlas_roles sdk (get account "database") grants)) [
                | inr (_, failed) ↦ rw failed tt
                | inl (roles, built) ↦ rw built (
                    accepted account grants roles _ built (
                      set_atlas_roles-Accepts (get account "username") (get account "password")
                        roles h))
              ])
      ]
