-- ===== src/Url.antt =====
-- `url.URL` of Go's net/url. Parsing and printing are the standard library's: they are the fields
-- of a record that the operations take. `RawQuery` is held as what `Query()` makes of it, which is
-- also how the providers write it, by `Encode()`.
pub mod Laws
use bindings.Common.{String, Option, List, [], ◌∷◌, ◌==◌, if◌then◌else◌}
use bindings.Exec.{Result}

-- url.Values
abbrev pub Values : Type 0
Values = List (String × List String)

pub record Url : Type 0 where
  pub scheme : String
  pub user : Option (String × String)
  pub host : String
  pub path : String
  pub query : Values

pub record UrlLib : Type 0 where
  pub parse : String → Result Url
  pub to_string : Url → String
  -- binding.SetURLHostname(u, hostname)
  pub set_hostname : Url → String → Url

-- values.Del(key)
unfoldable pub del : Values → String → Values
del [] k = []
del ((j, vs) ∷ q) k = if j == k then del q k else (j, vs) ∷ del q k

-- values[key], [] when the key is missing
unfoldable pub values_of : Values → String → List String
values_of [] k = []
values_of ((j, vs) ∷ q) k = if j == k then vs else values_of q k

-- values.Set(key, value)
unfoldable pub set_value : Values → String → String → Values
set_value q k v = (k, v ∷ []) ∷ del q k

-- values.Get(key): the first value, "" when there is none
abbrev pub first_value : List String → String
first_value [] = ""
first_value (v ∷ vs) = v
