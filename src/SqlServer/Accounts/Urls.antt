-- ===== src/SqlServer/Accounts/Urls.antt =====
-- The account URLs of the SQL Server provider, and the query options that name credentials.
use bindings.Common.{
  elem, sym, List, Bool, eq_refl, eq_iff, ◌==◌, Bool-cases, ◌∷◌, arith, [], if◌then◌else◌, ◌≡◌,
  String, inl, inr,
}
use bindings.Exec.{>>--eq-ok, ok}
use bindings.Url.{Url, Values, UrlLib, values_of}
use bindings.SqlServer.Accounts.{is_credential, strip_credentials, account_urls}
use bindings.Sdk.{Sdk}

module _ (to_lower : String → String) where
  values_of-strip_credentials :
      (q : Values) (key : String)
      → values_of (strip_credentials to_lower q) key
        ≡ (if is_credential (to_lower key) then [] else values_of q key)
  unfolding values_of strip_credentials
  values_of-strip_credentials [] key = ground arith
  values_of-strip_credentials ((k, vs) ∷ q) key = elim (Bool-cases (k == key)) [
    | inl same ↦
        let equal : k ≡ key = ground (arith, eq_iff k key) in
        rw equal (ground (arith, values_of-strip_credentials q key, eq_refl key))
    | inr other ↦ ground (arith, values_of-strip_credentials q key, eq_iff k key)
  ]

-- The query options by which the SQL Server driver takes a user or a password.
abbrev credential_options : List String
credential_options = "user id" ∷ "user" ∷ "uid" ∷ "password" ∷ "pwd" ∷ "change password" ∷ []

-- The key is one of them, in any mix of cases.
abbrev pub takes_credential : (String → String) → String → Bool
takes_credential to_lower key = elem (to_lower key) credential_options

is_credential-elem : (key : String) → is_credential key ≡ elem key credential_options
is_credential-elem key = ground arith

-- The account URLs are the SDK's for a URL that differs from the service's in its query only. In
-- that query none of the options `user id`, `user`, `uid`, `password`, `pwd` and `change password`
-- has a value, in any mix of cases; every other key has the service's values.
pub account_urls-strips :
    (sdk : Sdk) (urls : UrlLib) (to_lower : String → String)
    (admin_url user_name password hostname : String) (pair : String × String)
    → account_urls sdk urls to_lower admin_url user_name password hostname ≡ ok pair
    → (admin : Url) × (query : Values) × (urls.parse admin_url ≡ ok admin)
      × (sdk.account_urls
            (urls.to_string (record admin { query = query }))
            user_name
            password
            hostname
          ≡ ok pair)
      × ((key : String)
          → values_of query key
            ≡ (if takes_credential to_lower key then [] else values_of admin.query key))
unfolding account_urls
account_urls-strips sdk urls to_lower admin_url user_name password hostname pair e =
    let (admin, parsed, rest) =
      >>--eq-ok (urls.parse admin_url)
        (λ u.
          sdk.account_urls
            (urls.to_string (record u { query = strip_credentials to_lower u.query })) user_name
            password hostname)
        e in
    (
      admin,
      strip_credentials to_lower admin.query,
      parsed,
      rest,
      λ key.
          rw (sym (is_credential-elem (to_lower key)))
            (values_of-strip_credentials to_lower admin.query key),
    )
