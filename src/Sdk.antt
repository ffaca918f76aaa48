-- ===== src/Sdk.antt =====
-- The parts of github.com/openrundev/openrun/pkg/binding and of its package sqlbinding that the
-- providers use. They are not in this repository: the types are as the providers use them, and
-- the functions are the fields of a record that every operation takes.
use bindings.Common.{ℕ, String, Bool, Option, List, GoMap, ◌≡◌, ◌≢◌}
use bindings.Exec.{GoError, Result, Exec, ok}

-- binding.GrantType: the three named constants, and any other text.
pub data GrantType : Type 0 where
  read create full : GrantType
  other : String → GrantType

pub record Grant : Type 0 where
  pub grant_type : GrantType
  pub grant_target : String

pub data ArtifactType : Type 0 where
  user role login schema database : ArtifactType
  other : String → ArtifactType

pub record Artifact : Type 0 where
  pub kind : ArtifactType
  pub name : String

abbrev pub artifact : ArtifactType → String → Artifact
artifact kind name = record { kind = kind; name = name }

pub record NameOptions : Type 0 where
  pub max_len : ℕ
  pub uppercase : Bool

pub record Sdk : Type 0 where
  -- binding.GrantTargetAll, and the texts of the two string types
  pub grant_target_all : String
  pub grant_type_text : GrantType → String
  pub artifact_type_text : ArtifactType → String
  -- binding.AccountName(prefixProd, prefixStg, bindingId, isStaging, options)
  pub account_name : String → String → String → Bool → NameOptions → Result String
  -- binding.VerifyKeys(keys, required, optional)
  pub verify_keys : List String → List String → List String → Option GoError
  -- binding.AccountURLs(url, user, password, hostname)
  pub account_urls : String → String → String → String → Result (String × String)
  -- sqlbinding.QuoteIdentDouble, QuoteIdentBracket, QuoteStringSingle
  pub quote_ident_double : String → String
  pub quote_ident_bracket : String → String
  pub quote_string_single : String → String
  -- binding.ServiceConfigWithLocalhostBindingHostname(config, url, runtime), at the runtime given
  pub localhost_config : GoMap → String → GoMap

-- binding.BindingMetadata, as far as it is read.
pub record BindingMetadata : Type 0 where
  pub account : GoMap
  pub config : GoMap
  pub grants_applied : List Grant

-- The functions that drive the grants of a binding through a provider's callbacks.
pub record GrantEngine (S : Type 0) : Type 1 where
  pub GrantApplyResult : Type 0
  -- binding.ApplyGrantsIncrementalSafe(metadata, types, reapplyAll, apply)
  pub apply_grants_incremental_safe :
      BindingMetadata
      → List GrantType
      → Bool
      → (String → List Grant → Exec S (List Grant))
      → Exec S GrantApplyResult
  -- binding.ApplyGrantsRebuild(metadata, types, rebuild)
  pub apply_grants_rebuild :
      BindingMetadata → List GrantType → (List Grant → Exec S Unit) → Exec S GrantApplyResult
  -- binding.RevokeThenRegrant(revokes, regrants, apply)
  pub revoke_then_regrant :
      List Grant → List Grant → (String → List Grant → Exec S Unit) → Exec S Unit

-- binding.AccountName never gives an empty name.
abbrev pub NamesNotEmpty : Sdk → Type 0
NamesNotEmpty sdk =
    (prod stg binding_id : String) (is_staging : Bool) (options : NameOptions) (name : String)
    → sdk.account_name prod stg binding_id is_staging options ≡ ok name
    → name ≢ ""
