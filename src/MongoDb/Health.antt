-- ===== src/MongoDb/Health.antt =====
-- CheckHealth, CheckBindingHealth and RunCommand of mongodb/mongodb_binding.go.
use bindings.Common.{◌∷◌, none, some, ◌==◌, if◌then◌else◌, get, Option, GoMap, Bool, String}
use bindings.MongoDb.Client.{
  commanded, with_disconnect, History, ping_url, verify_access, connect_url, Cluster,
}
use bindings.Exec.{
  pure, describe, ◌>>◌, ok, lift, message, fail, err, ◌>>=◌, Done, ◌>>-◌, Exec, wrap_err, Result,
}
use bindings.MongoDb.Accounts.{MongoDb}
use bindings.MongoDb.Service.{check_reachable}

-- bson.D, bson.Raw and the JSON map of a result, with the functions of the packages bson and json,
-- and RunCommand(…).Raw() on a client at a URL for a database.
pub record DocLib (Doc Raw Json : Type 0) : Type 0 where
  pub unmarshal_ext_json : String → Result Doc
  pub is_empty : Doc → Bool
  pub marshal_ext_json : Raw → Result String
  pub unmarshal_json : String → Result Json
  pub run_doc : History → String → String → Doc → Result Raw

module _ (cluster : Cluster) where
  -- `none` is a service that has not been initialized.
  unfoldable pub check_health : Option MongoDb → Exec History Done
  unfolding check_reachable verify_access ping_url
  check_health none = fail (message "service is not initialized")
  check_health (some b) =
      if b.is_atlas
      then describe "error verifying atlas api access"
          (verify_access cluster (get b.service_config "project_id"))
        >> check_reachable cluster (get b.service_config "url")
      else describe "error pinging mongodb" (ping_url cluster (get b.service_config "url"))

  unfoldable pub check_binding_health : GoMap → Exec History Done
  unfolding connect_url ping_url
  check_binding_health account =
      let url = get account "url_direct" in
      if url == ""
      then fail (message "binding account has no connection url")
      else describe "error connecting as binding account" (connect_url cluster url)
        >> with_disconnect cluster url
            (describe "error pinging mongodb as binding account" (ping_url cluster url))

  module _ {Doc Raw Json : Type 0} (docs : DocLib Doc Raw Json) where
    unfoldable pub parse_command : String → Result Doc
    parse_command command =
        wrap_err "error parsing command as a JSON document" (docs.unmarshal_ext_json command)
        >>- λ doc.
            if docs.is_empty doc
            then err (message "command is required, e.g. {\"find\": \"collection\"}")
            else ok doc

    unfoldable pub result_to_json : Raw → Result Json
    result_to_json raw =
        wrap_err "error encoding command result" (docs.marshal_ext_json raw) >>- λ bytes.
        wrap_err "error decoding command result" (docs.unmarshal_json bytes)

    -- The value of the key "result".
    unfoldable pub run_account_command : GoMap → String → Exec History Json
    unfolding parse_command result_to_json connect_url
    run_account_command account command =
        let database = get account "database" in
        let url = get account "url_direct" in
        do
          doc ← lift (parse_command command)
          if database == ""
              then fail (message "binding account is missing the database field")
              else pure tt
          describe "error connecting with account url" (connect_url cluster url)
          with_disconnect cluster url (
              describe "error executing command"
                (λ h. (docs.run_doc h url database doc, commanded url database command ∷ h))
              >>= λ raw. lift (result_to_json raw))
