-- ===== src/Samples.antt =====
-- Concrete stand-ins for what the operations take as arguments: a server that accepts everything,
-- one that refuses its third statement, and simple versions of the SDK's functions.
use bindings.Common.{
  ◌==◌, ◌∙◌, sym, ◌≢◌, if◌then◌else◌, some, ◌≡◌, ◌∷◌, [], ◌++◌, none, Bool, Option, String,
}
use bindings.GoText.{GoText}
use bindings.Exec.{message, Result, GoError, ok}
use bindings.Sdk.{NameOptions, Sdk}
use bindings.Sql.{History, Server, Cursor}
use bindings.Url.{Url, UrlLib}
use text.Mathlib.TextLemmas.{cons-append, cons≢nil}

abbrev quoted : String → String → String
quoted q s = q ++ s ++ q

abbrev sample_name : String → String → String → Bool → NameOptions → Result String
sample_name prod stg binding_id is_staging options =
    ok ("n" ++ ((if is_staging then stg else prod) ++ binding_id))

abbrev pub sample_sdk : Sdk
sample_sdk = record {
  grant_target_all = "*";
  grant_type_text = λ t. "type";
  artifact_type_text = λ t. "artifact";
  account_name = sample_name;
  verify_keys = λ keys required optional. none;
  account_urls = λ url user password hostname. ok (url, url);
  quote_ident_double = quoted "'";
  quote_ident_bracket = quoted "|";
  quote_string_single = quoted "'";
  localhost_config = λ config url. config;
}

pub sample_sdk-NamesNotEmpty :
    (prod stg binding_id : String) (is_staging : Bool) (options : NameOptions) (name : String)
    → sample_sdk.account_name prod stg binding_id is_staging options ≡ ok name
    → name ≢ ""
sample_sdk-NamesNotEmpty prod stg binding_id is_staging options name e h =
    let same : name ≡ "n" ++ ((if is_staging then stg else prod) ++ binding_id) = cc in
    cons≢nil (sym (cons-append _ _ _) ∙ sym same ∙ h)

abbrev one_row : Cursor
one_row = record { rows = ok (λ i. "1") ∷ []; finish = none }

abbrev pub accepting : Server
accepting = record {
  exec = λ h stmt. none;
  query = λ h text args. ok one_row;
  open_dsn = λ h dsn. none;
  ping = λ h. none;
  close = λ h. none;
}

-- The third event is an error, and no table exists.
abbrev refuse_third : History → Option GoError
refuse_third (_ ∷ _ ∷ []) = some (message "refused")
refuse_third _ = none

abbrev pub refusing : Server
refusing = record {
  exec = λ h stmt. refuse_third h;
  query = λ h text args. ok (record { rows = []; finish = none });
  open_dsn = λ h dsn. none;
  ping = λ h. some (message "unreachable");
  close = λ h. none;
}

abbrev pub sample_url : Url
sample_url = record {
  scheme = "http";
  user = none;
  host = "db";
  path = "";
  query = ("password", "x" ∷ []) ∷ ("secure", "true" ∷ []) ∷ [];
}

-- A library in which every text parses to one URL.
abbrev pub sample_urls : UrlLib
sample_urls = record {
  parse = λ text. ok sample_url;
  to_string = λ u. u.path;
  set_hostname = λ u host. u;
}

-- Letter cases of the one name that the tests use in mixed case.
abbrev pub sample_text : GoText
sample_text = record {
  to_lower = λ s. if s == "Orders" then "orders" else s;
  to_upper = λ s. if s == "Orders" then "ORDERS" else s;
  trim_space = λ s. s;
}
