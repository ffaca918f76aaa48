-- ===== src/Snowflake.antt =====
-- snowflake/snowflake_binding.go and snowflake/snowflake_auth.go.
pub mod Auth
pub mod Accounts
pub mod Perms
pub mod Service
mod Tests
use bindings.Common.{
  ◌=?◌, ◌&&◌, false, double_all, ◌||◌, true, leb, if◌then◌else◌, Bool, ℕ, GoMap, String,
}
use bindings.GoText.{GoText}
use bindings.Sdk.{Sdk}
use Prim.Native.Char.{code}
use Prim.Native.String

-- The service after InitializeService; the admin connection is the `Server` of the operations.
pub record Snowflake : Type 0 where
  pub service_config : GoMap

-- A letter or '_', and what may follow it: the classes of unquotedIdentRegex.
abbrev is_ident_start : ℕ → Bool
is_ident_start c = (leb b'A' c && leb c b'Z') || ((leb b'a' c && leb c b'z') || c =? b'_')

abbrev is_ident_char : ℕ → Bool
is_ident_char c = is_ident_start c || ((leb b'0' c && leb c b'9') || c =? b'$')

all_ident_chars : String → Bool
all_ident_chars String.[] = true
all_ident_chars (String.◌∷◌ c s) = is_ident_char (code c) && all_ident_chars s

-- unquotedIdentRegex.MatchString
unfoldable pub is_unquoted_ident : String → Bool
unfolding all_ident_chars
is_unquoted_ident String.[] = false
is_unquoted_ident (String.◌∷◌ c s) = is_ident_start (code c) && all_ident_chars s

module _ (sdk : Sdk) (text : GoText) where
  unfoldable pub quote_ident : String → String
  quote_ident name =
      sdk.quote_ident_double (if is_unquoted_ident name then text.to_upper name else name)

  -- Backslashes are doubled before quoting.
  unfoldable pub quote_string : String → String
  quote_string value = sdk.quote_string_single (double_all 92 value)

abbrev pub full_table_privileges : String
full_table_privileges = "SELECT, INSERT, UPDATE, DELETE, TRUNCATE, REFERENCES"
