-- ===== src/MongoDb/Atlas/Waiting.antt =====
-- waitForAtlasUser of mongodb/mongodb_binding.go ends, and what its results mean.
use bindings.MongoDb.Atlas.{
  deadline_after, round, with_roles, user_created, waited_for, poll_at, generate_atlas_account,
  wait_for_atlas_user, poll_user, poll_interval, Run, Clock,
}
use bindings.Sdk.{user, Sdk}
use bindings.MongoDb.Accounts.{report, Session, MongoDb}
use bindings.MongoDb.Grants.{AtlasRole}
use bindings.Common.{
  ◌=?◌, List, if-elim, Bool, false, zero, inr, inl, ◌⊎◌, arith, true, ◌*◌, suc, ltb, ◌<◌, refl,
  none, some, ◌≡◌, ◌+◌, ◌∷◌, Option, ◌≤◌, ℕ, String,
}
use bindings.Url.{UrlLib}
use bindings.Exec.{err, ok, continue, check, Result, GoError, Done}
use bindings.MongoDb.Client.{
  disconnected, pinged, with_disconnect, waited, connected, connect_url, History, ping_mongo_url,
  ping_url, Event, Cluster,
}

-- Time does not go back, and a wait lasts as long as it is asked to.
abbrev pub IsClock : Clock → Type 0
IsClock clock =
    ((e : Event) (h : History) → clock.now h ≤ clock.now (e ∷ h))
    × ((h : History) → clock.now h + poll_interval ≤ clock.now (waited ∷ h))

abbrev pub Returns : {S A : Type 0} → Run S A → Type 0
Returns {S} {A} run = (out : Result A × S) × (run ≡ some out)

module _ (cluster : Cluster) (clock : Clock) (ticks : IsClock clock) where
  check-state : (answer : Option GoError) (h : History) → (check answer h).1 ≡ h
  check-state none h = refl
  check-state (some e) h = refl

  after_connect :
      (url : String) (h : History) (answer : Option GoError)
      → let out = check answer (connected url answer ∷ h) in
        clock.now h
        ≤ clock.now
            (continue out.0 (λ _. with_disconnect cluster url (ping_url cluster url)) out.1).1
  unfolding ping_url
  after_connect url h none =
      let h1 = connected url none ∷ h in
      let h2 = pinged url (cluster.ping h1 url) ∷ h1 in
      rw (check-state (cluster.ping h1 url) h2) (
        let connecting = ticks.0 (connected url none) h in
        let pinging = ticks.0 (pinged url (cluster.ping h1 url)) h1 in
        let leaving = ticks.0 (disconnected url (cluster.disconnect h2 url)) h2 in omega arith)
  after_connect url h (some e) = ticks.0 _ h

  ping_mongo_url-later :
      (url : String) (h : History) → clock.now h ≤ clock.now (ping_mongo_url cluster url h).1
  unfolding ping_mongo_url connect_url
  ping_mongo_url-later url h = after_connect url h (cluster.connect h url)

  module _ (user_url name : String) (deadline : ℕ) where
    after_wait :
        (fuel : ℕ) (h h1 : History)
        → clock.now h ≤ clock.now h1
        → deadline < clock.now h + suc fuel * poll_interval
        → deadline < clock.now (waited ∷ h1) + fuel * poll_interval
    after_wait fuel h h1 later enough = let waiting = ticks.1 h1 in omega arith

    expired :
        (h h1 : History)
        → clock.now h ≤ clock.now h1
        → deadline < clock.now h + 0
        → ltb deadline (clock.now h1) ≡ true
    expired h h1 later enough = ground arith

    -- A round when its deadline has passed, or what comes after it returns.
    round-Returns :
        (again : Run History Done) (r : Result Done) (h1 : History) (passed : Bool)
        (stopped : Option GoError)
        → (passed ≡ true) ⊎ Returns again
        → Returns (round name r h1 passed stopped again)
    round-Returns again (ok _) h1 passed stopped next = (_, refl)
    round-Returns again (err e) h1 true stopped next = (_, refl)
    round-Returns again (err e) h1 false (some _) next = (_, refl)
    round-Returns again (err e) h1 false none (inl late) = cc
    round-Returns again (err e) h1 false none (inr returned) = returned

    poll_user-Returns :
        (fuel : ℕ) (h : History)
        → deadline < clock.now h + fuel * poll_interval
        → Returns (poll_user cluster clock user_url name deadline (suc fuel) h)
    unfolding poll_user
    poll_user-Returns zero h enough =
        let h1 = (ping_mongo_url cluster user_url h).1 in
        round-Returns (poll_user cluster clock user_url name deadline 0 (waited ∷ h1)) _ h1 _ _
          (inl (expired h h1 (ping_mongo_url-later user_url h) enough))
    poll_user-Returns (suc fuel) h enough =
        let h1 = (ping_mongo_url cluster user_url h).1 in
        round-Returns (poll_user cluster clock user_url name deadline (suc fuel) (waited ∷ h1)) _ h1
          _ _
          (inr (
            poll_user-Returns fuel (waited ∷ h1)
              (after_wait fuel h h1 (ping_mongo_url-later user_url h) enough)))

  module _ (urls : UrlLib) (b : MongoDb) (fuel : ℕ) (enough : b.user_wait_secs < fuel * 5)
      (name password : String) where
    before_deadline :
        (start : ℕ) → deadline_after start b.user_wait_secs < start + fuel * poll_interval
    unfolding deadline_after
    before_deadline start = ground arith

    poll_at-Returns :
        (h : History) (user_url : Result String)
        → Returns (poll_at cluster clock urls b (suc fuel) name h user_url)
    poll_at-Returns h (err e) = (_, refl)
    poll_at-Returns h (ok user_url) =
        poll_user-Returns user_url name (deadline_after (clock.now h) b.user_wait_secs) fuel h
          (before_deadline (clock.now h))

    wait_for_atlas_user-Returns :
        (h : History)
        → Returns (wait_for_atlas_user cluster clock urls b (suc fuel) name password h)
    unfolding wait_for_atlas_user
    wait_for_atlas_user-Returns h =
        if-elim Returns (b.user_wait_secs =? 0) _ _ (λ _. (_, refl)) (λ _. poll_at-Returns h _)

    waited_for-Returns :
        (s : Session) (run : Run History Done)
        → Returns run
        → Returns (waited_for cluster clock urls b s run)
    waited_for-Returns s none ((_, e)) = cc
    waited_for-Returns s (some (r, h)) returned = (_, refl)

    user_created-Returns :
        (s : Session) (out : Result Done × History)
        → Returns (user_created cluster clock urls b (suc fuel) name password out s)
    user_created-Returns s (err e, h) = (_, refl)
    user_created-Returns s (ok _, h) =
        waited_for-Returns (report user name (record s { history = h })).1 _
          (wait_for_atlas_user-Returns h)

    with_roles-Returns :
        (s : Session) (roles : Result (List AtlasRole))
        → Returns (with_roles cluster clock urls b (suc fuel) name password roles s)
    with_roles-Returns s (err e) = (_, refl)
    with_roles-Returns s (ok roles) = user_created-Returns s _

    pub generate_atlas_account-Returns :
        (sdk : Sdk) (database : String) (is_derived : Bool) (s : Session)
        → Returns (
            generate_atlas_account cluster clock urls b sdk
              (suc fuel)
              name
              password
              database
              is_derived
              s)
    unfolding generate_atlas_account
    generate_atlas_account-Returns sdk database is_derived s = with_roles-Returns s _
