-- ===== src/MongoDb/Atlas/Created.antt =====
-- What generateAtlasAccount of mongodb/mongodb_binding.go reports, and what its success means.
use bindings.MongoDb.Client.{atlas_do, create_database_user, ping_mongo_url, History, Cluster}
use bindings.MongoDb.Users.Atlas.{atlas_do-accepted, post_request, newest_accepted}
use bindings.MongoDb.Atlas.{
  with_roles, waited_for, generate_atlas_account, user_created, poll_at, wait_for_atlas_user, round,
  Run, poll_user, Clock,
}
use bindings.MongoDb.Grants.{atlas_base_roles, build_atlas_roles, AtlasRole}
use bindings.Common.{
  [], if◌then◌else◌, push, inr, inl, ◌⊎◌, get, Bool-cases, List, ◌=?◌, none, false, refl, true,
  Option, zero, suc, Bool, some, ◌≡◌, ℕ, String,
}
use bindings.MongoDb.Accounts.{report, Session, MongoDb}
use mathlib.Core.Path.{subst, Path}
use bindings.Sdk.{user, artifact, Sdk}
use bindings.Exec.{is_ok, err, GoError, ok, Result, Done}
use bindings.MongoDb.Urls.{build_account_url}
use bindings.Url.{UrlLib}

some_inj : {A : Type 0} {x y : A} → some x ≡ some y → x ≡ y
some_inj e = cc

module _ (cluster : Cluster) (clock : Clock) where
  -- The last thing that happened was a login at the URL.
  abbrev pub LoggedIn : String → History → Type 0
  LoggedIn user_url h' = (h0 : History) × (ping_mongo_url cluster user_url h0 ≡ (ok tt, h'))

  round-LoggedIn :
      (user_url name : String) (again : Run History Done) (r : Result Done) (h0 h1 h' : History)
      (passed : Bool) (stopped : Option GoError)
      → ping_mongo_url cluster user_url h0 ≡ (r, h1)
      → (again ≡ some (ok tt, h') → LoggedIn user_url h')
      → round name r h1 passed stopped again ≡ some (ok tt, h')
      → LoggedIn user_url h'
  round-LoggedIn user_url name again (ok _) h0 h1 h' passed stopped ran later e = (h0, cc)
  round-LoggedIn user_url name again (err _) h0 h1 h' true stopped ran later e = cc
  round-LoggedIn user_url name again (err _) h0 h1 h' false (some _) ran later e = cc
  round-LoggedIn user_url name again (err _) h0 h1 h' false none ran later e = later e

  poll_user-LoggedIn :
      (user_url name : String) (deadline fuel : ℕ) (h h' : History)
      → poll_user cluster clock user_url name deadline fuel h ≡ some (ok tt, h')
      → LoggedIn user_url h'
  unfolding poll_user
  poll_user-LoggedIn user_url name deadline zero h h' e = cc
  poll_user-LoggedIn user_url name deadline (suc fuel) h h' e =
      round-LoggedIn user_url name _ _ h _ h' _ _ refl
        (poll_user-LoggedIn user_url name deadline fuel _ h') e

  module _ (sdk : Sdk) (urls : UrlLib) (b : MongoDb) (fuel : ℕ) (name password : String) where
    -- After a success the wait was disabled, or the cluster has accepted a login as the user.
    abbrev pub Usable : History → Result Done → History → Type 0
    Usable h1 (err _) h' = Unit
    Usable h1 (ok _) h' =
        (((b.user_wait_secs =? 0) ≡ true) × (h' ≡ h1))
        ⊎ ((user_url : String) × (build_account_url urls (get b.service_config "url") name password
                "admin" ""
              ≡ ok user_url)
            × LoggedIn user_url h')

    polled :
        (h h' : History) (user_url : Result String)
        → build_account_url urls (get b.service_config "url") name password "admin" "" ≡ user_url
        → poll_at cluster clock urls b fuel name h user_url ≡ some (ok tt, h')
        → Usable h (ok tt) h'
    polled h h' (err _) built e = cc
    polled h h' (ok user_url) built e =
        inr (user_url, built, poll_user-LoggedIn user_url name _ fuel h h' e)

    at_once :
        (h h' : History) → Path (Run History Done) (some (ok tt, h)) (some (ok tt, h')) → h' ≡ h
    at_once h h' e = cc

    wait_for_atlas_user-Usable :
        (h h' : History) (r : Result Done)
        → wait_for_atlas_user cluster clock urls b fuel name password h ≡ some (r, h')
        → Usable h r h'
    unfolding wait_for_atlas_user
    wait_for_atlas_user-Usable h h' (err _) e = tt
    wait_for_atlas_user-Usable h h' (ok _) e = elim (Bool-cases (b.user_wait_secs =? 0)) [
      | inl disabled ↦ inl (disabled, at_once h h' (rw disabled at e))
      | inr asked ↦ polled h h' _ refl (rw asked at e)
    ]

    -- The request that creates the user, sent to the API first.
    abbrev pub requested : List AtlasRole → Session → Result Done × History
    requested roles s = atlas_do cluster (post_request sdk cluster b name password roles) s.history

    -- What is left once the request was answered: nothing is reported if it failed; else the API
    -- accepted it, and the user is reported whatever the wait does.
    abbrev pub IsAnswered :
        List AtlasRole → Session → Result Done × History → Result Done × Session → Type 0
    IsAnswered roles s (err _, h1) (r, s') = (s'.artifacts ≡ s.artifacts) × (is_ok r ≡ false)
    IsAnswered roles s (ok _, h1) (r, s') =
        (newest_accepted h1 ≡ some (post_request sdk cluster b name password roles))
        × (s'.artifacts ≡ push s.artifacts (artifact user name))
        × Usable h1 r s'.history

    -- What a run of generateAtlasAccount leaves, for the roles of the user; without roles nothing is
    -- sent.
    abbrev pub IsReported : Result (List AtlasRole) → Session → Result Done × Session → Type 0
    IsReported (err _) s (r, s') =
        (s'.artifacts ≡ s.artifacts) × (s'.history ≡ s.history) × (is_ok r ≡ false)
    IsReported (ok roles) s out = IsAnswered roles s (requested roles s) out

    waited-IsReported :
        (roles : List AtlasRole) (s s' : Session) (h : History) (r : Result Done)
        (run : Run History Done)
        → newest_accepted h ≡ some (post_request sdk cluster b name password roles)
        → ((h' : History) (r' : Result Done) → run ≡ some (r', h') → Usable h r' h')
        → waited_for cluster clock urls b (report user name (record s { history = h })).1 run
          ≡ some (r, s')
        → IsAnswered roles s (ok tt, h) (r, s')
    waited-IsReported roles s s' h r none accepted usable e = cc
    waited-IsReported roles s s' h r (some (r', h')) accepted usable e =
        subst (IsAnswered roles s (ok tt, h)) (some_inj e) (accepted, refl, usable h' r' refl)

    created-IsReported :
        (roles : List AtlasRole) (s s' : Session) (r : Result Done) (out : Result Done × History)
        → (is_ok out.0 ≡ true
            → newest_accepted out.1 ≡ some (post_request sdk cluster b name password roles))
        → user_created cluster clock urls b fuel name password out s ≡ some (r, s')
        → IsAnswered roles s out (r, s')
    created-IsReported roles s s' r (err e, h) accepted run =
        subst (IsAnswered roles s (err e, h)) (some_inj run) (refl, refl)
    created-IsReported roles s s' r (ok _, h) accepted run =
        waited-IsReported roles s s' h r _ (accepted refl)
          (λ h' r'. wait_for_atlas_user-Usable h h' r') run

  -- A generateAtlasAccount that returns has first asked the API to create the user, with the roles of
  -- a base or a derived binding. If these roles cannot be built it sent nothing; then, and if the
  -- request failed, it fails and reports nothing. If the request succeeded, the API has accepted
  -- it and that user is reported, even if the wait then fails. A success means that the wait was
  -- disabled or that the cluster has accepted a login with the new user's name and password.
  pub generate_atlas_account-IsReported :
      (sdk : Sdk) (urls : UrlLib) (b : MongoDb) (fuel : ℕ) (name password database : String)
      (is_derived : Bool) (s s' : Session) (r : Result Done)
      → generate_atlas_account cluster clock urls b sdk fuel name password database is_derived s
        ≡ some (r, s')
      → IsReported sdk urls b fuel name password
          (if is_derived then build_atlas_roles sdk database [] else ok (atlas_base_roles database))
          s
          (r, s')
  unfolding generate_atlas_account create_database_user
  generate_atlas_account-IsReported sdk urls b fuel name password database is_derived s s' r run =
      made
        (if is_derived then build_atlas_roles sdk database [] else ok (atlas_base_roles database))
        run
    where
      made :
          (roles : Result (List AtlasRole))
          → with_roles cluster clock urls b fuel name password roles s ≡ some (r, s')
          → IsReported sdk urls b fuel name password roles s (r, s')
      made (err e) run' =
          subst (IsReported sdk urls b fuel name password (err e) s) (some_inj run')
            (refl, refl, refl)
      made (ok roles) run' =
          created-IsReported sdk urls b fuel name password roles s s' r _
            (atlas_do-accepted sdk cluster b _ s.history) run'
