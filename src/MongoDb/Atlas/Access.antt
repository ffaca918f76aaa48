-- ===== src/MongoDb/Atlas/Access.antt =====
-- The credentials that initAtlas of mongodb/mongodb_binding.go accepts.
use bindings.Common.{arith, ◌||◌, not, ◌&&◌, ◌≡◌, GoMap}
use bindings.MongoDb.Atlas.{has, choose_client}
use bindings.Exec.{is_ok}

-- The choice of the Atlas client succeeds exactly when one of the two kinds of credentials is
-- complete and the other one is not even begun: both keys of an API key and neither part of a
-- service account, or both parts of a service account and neither key.
pub choose_client-is_ok :
    (c : GoMap)
    → is_ok (choose_client c) ≡ (
        ((has c "public_key" && has c "private_key")
          && not (has c "client_id" || has c "client_secret"))
        || ((has c "client_id" && has c "client_secret")
            && not (has c "public_key" || has c "private_key")))
unfolding choose_client
choose_client-is_ok c = ground arith
