-- ===== src/MongoDb/Generation/Returns.antt =====
-- GenerateAccount of the MongoDB provider ends.
use bindings.Common.{
  refl, if-elim, none, some, is_some, suc, ◌*◌, GoMap, ◌<◌, Option, Bool, String, ℕ,
}
use bindings.MongoDb.Atlas.Waiting.{generate_atlas_account-Returns, Returns, IsClock}
use bindings.Exec.{ok, err, Done, Result}
use bindings.MongoDb.Generation.{generate_for, then_account, generate_account}
use bindings.Sdk.{BindingMetadata, Sdk}
use bindings.MongoDb.Accounts.{Session, MongoDb}
use bindings.MongoDb.Atlas.{Run, Clock}
use bindings.Url.{UrlLib}
use bindings.MongoDb.Client.{Cluster}

module _ (sdk : Sdk) (cluster : Cluster) (clock : Clock) (urls : UrlLib)
    (random_hex : ℕ → Result String) (b : MongoDb) where
  then_account-Returns :
      (run : Run Session Done) (account : Result GoMap)
      → Returns run
      → Returns (then_account sdk cluster clock urls random_hex b run account)
  then_account-Returns none account ((_, e)) = cc
  then_account-Returns (some (err e, s)) account returned = (_, refl)
  then_account-Returns (some (ok _, s)) account returned = (_, refl)

  generate_for-Returns :
      IsClock clock
      → (fuel : ℕ) (is_derived : Bool) (r : Result (String × String × String)) (s : Session)
      → b.user_wait_secs < fuel * 5
      → Returns (generate_for sdk cluster clock urls random_hex b (suc fuel) is_derived r s)
  generate_for-Returns ticks fuel is_derived (err e) s enough = (_, refl)
  generate_for-Returns ticks fuel is_derived (ok (name, password, database)) s enough =
      then_account-Returns _ _ (
        if-elim Returns b.is_atlas _ _
          (λ _.
            generate_atlas_account-Returns cluster clock ticks urls b fuel enough name password sdk
              database is_derived s)
          (λ _. (_, refl)))

  -- A GenerateAccount of MongoDB returns, also when it waits for a new Atlas user, whatever the
  -- cluster and the API answer: with a clock that does not go back and waits that last five
  -- seconds, one poll more than a fifth of the configured seconds is enough.
  pub generate_account-Returns :
      IsClock clock
      → (fuel : ℕ) (binding_id : String) (metadata : BindingMetadata) (derived_from : Option GoMap)
        (is_staging : Bool) (s : Session)
      → b.user_wait_secs < fuel * 5
      → Returns (
          generate_account sdk cluster clock urls random_hex b
            (suc fuel)
            binding_id
            metadata
            derived_from
            is_staging
            s)
  unfolding generate_account
  generate_account-Returns ticks fuel binding_id metadata derived_from is_staging s enough =
      generate_for-Returns ticks fuel (is_some derived_from) _ s enough
