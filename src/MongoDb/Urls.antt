-- ===== src/MongoDb/Urls.antt =====
-- validateMongoServiceURL and buildMongoAccountURL of mongodb/mongodb_binding.go.
pub mod Carries
use bindings.Exec.{Done, message, err, ok, wrap_err, ◌>>-◌, Result}
use bindings.Common.{
  in_quotes, ◌&&◌, ◌||◌, ◌++◌, ◌=?◌, not, ◌==◌, if◌then◌else◌, false, Bool, some, String,
}
use bindings.Url.{set_value, UrlLib, Url}
use Prim.Native.Char.{code}
use Prim.Native.String

-- strings.Contains(s, ",")
unfoldable pub contains_comma : String → Bool
contains_comma String.[] = false
contains_comma (String.◌∷◌ c s) = (code c =? b',') || contains_comma s

abbrev check_url : Url → Result Done
check_url u =
    if not (u.scheme == "mongodb") && not (u.scheme == "mongodb+srv")
    then err (
        message (
          "unsupported mongodb url scheme "
          ++ in_quotes u.scheme
          ++ " (expected mongodb:// or mongodb+srv://)"))
    else if contains_comma u.host
    then err (
        message
          "multi-host mongodb urls are not supported for service bindings, use a single host or a mongodb+srv url")
    else ok tt

unfoldable pub validate_service_url : UrlLib → String → Result Done
validate_service_url urls raw_url =
    wrap_err "error parsing mongodb url" (urls.parse raw_url) >>- λ u. check_url u

-- The URL that buildMongoAccountURL prints, from the parsed URL of the service.
unfoldable pub account_url : UrlLib → Url → String → String → String → String → Url
account_url urls u user_name password database hostname =
    let owned = record u { user = some (user_name, password) } in
    let placed = if owned.scheme == "mongodb" then urls.set_hostname owned hostname else owned in
    record placed { path = "/" ++ database; query = set_value placed.query "authSource" "admin" }

unfoldable pub build_account_url :
    UrlLib → String → String → String → String → String → Result String
unfolding validate_service_url account_url
build_account_url urls service_url user_name password database hostname =
    validate_service_url urls service_url >>- λ _. urls.parse service_url >>- λ u.
    ok (urls.to_string (account_url urls u user_name password database hostname))
