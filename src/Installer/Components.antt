-- ===== src/Installer/Components.antt =====
-- The lists of components and of identity providers of
-- tools/mas-iam-installer/internal/config/install.go.
pub mod Chosen
pub mod Closure
pub mod RoundTrip
use mas_iam_operator.Prelude.{
  ℕ, zero, suc, ◌+◌, ◌-◌, ◌*◌, ◌≤◌, ◌<◌, String, ◌<>◌, ◌≡◌, refl, sym, ap, ◌∙◌, ◌≢◌, ◌↔◌, ◌⊎◌, inl,
  inr, Bool, true, false, not, ◌&&◌, ◌||◌, Option, none, some, List, [], ◌∷◌, ◌++◌, arith, ◌==◌,
  starts_with, eq_iff, eq_refl, ltb, leb, nat_beq, if◌then◌else◌, Bool-cases, Option-cases, is_some,
  is_nil, length, take, drop, keep, All, has, has-append,
}
use mas_iam_operator.Errors.{
  ResponseError, Error, message, response, mas_unauthorized, wrapped, as_response, is_unauthorized,
  Result, ok, err, wrap_error, wrap_result,
}
use mas_iam_operator.Prelude.Text.{CaseTable, trim_space, to_lower, join}
use mas_iam_operator.Prelude.Fields.{is_blank_or_comma, fields}
use mas_iam_operator.Prelude.Dict.{Dict}
use mas_iam_operator.Prelude.Dict

-- The verb `%q` of Go's package `fmt`, which is no part of the repository.
pub record Quoting : Type 0 where
  pub quote : String → String

abbrev pub component_order : List String
component_order = "ldap" ∷ "keycloak" ∷ "scim" ∷ "s3" ∷ "smtp" ∷ []

abbrev pub default_mas_auth_providers : List String
default_mas_auth_providers = "ldap" ∷ "oidc" ∷ "saml" ∷ []

-- `selected[k]`: a missing key reads as false.
unfoldable pub chosen : String → Dict Bool → Bool
chosen k selected = elim (Dict.lookup k selected) [ none ↦ false | some b ↦ b ]

unfoldable pub set_all : List String → Dict Bool → Dict Bool
set_all [] selected = selected
set_all (k ∷ ks) selected = set_all ks (Dict.insert k true selected)

-- `if selected[k] { selected[dep] = true … }`
unfoldable pub when_chosen : String → List String → Dict Bool → Dict Bool
unfolding chosen set_all
when_chosen k deps selected = if chosen k selected then set_all deps selected else selected

-- The two tests on `selected` after the loop.
unfoldable pub add_dependencies : Dict Bool → Dict Bool
unfolding when_chosen
add_dependencies selected =
    when_chosen "keycloak" ("ldap" ∷ []) (when_chosen "scim" ("keycloak" ∷ "ldap" ∷ []) selected)

module _ ⦃u : CaseTable⦄ where
  unfoldable pub clean : String → String
  clean value = to_lower (trim_space value)

  -- The loop over the values, at the names of the `switch` and the error of its default case.
  unfoldable pub select :
      List String → (String → Error) → List String → Dict Bool → Result (Dict Bool)
  unfolding clean has
  select names unknown [] selected = ok selected
  select names unknown (value ∷ values) selected =
      let name = clean value in
      if name == ""
      then select names unknown values selected
      else if has name names
      then select names unknown values (Dict.insert name true selected)
      else err (unknown name)

  module _ ⦃q : Quoting⦄ where
    abbrev pub unknown_component : String → Error
    unknown_component name = message (
        "unknown install component "
        <> (q.quote name <> "; supported values are ldap, keycloak, scim, s3, smtp"))

    abbrev pub unknown_provider : String → Error
    unknown_provider name = message (
        "unknown MAS auth provider " <> (q.quote name <> "; supported values are ldap, oidc, saml"))

    unfoldable pub normalize_install_components : List String → Result (List String)
    unfolding select add_dependencies chosen
    normalize_install_components components =
        elim (select component_order unknown_component components []) [
          | err e ↦ err e
          | ok selected ↦ ok (keep (λ k. chosen k (add_dependencies selected)) component_order)
        ]

    unfoldable pub parse_install_components : String → Result (List String)
    unfolding normalize_install_components
    parse_install_components raw =
        if trim_space raw == ""
        then ok []
        else normalize_install_components (fields is_blank_or_comma (trim_space raw))

    unfoldable pub install_components_string : List String → String
    unfolding normalize_install_components
    install_components_string components = elim (normalize_install_components components) [
      | err e ↦ join "," components
      | ok normalized ↦ join "," normalized
    ]

    unfoldable pub normalize_mas_auth_providers : List String → Result (List String)
    unfolding select chosen
    normalize_mas_auth_providers providers =
        elim (select default_mas_auth_providers unknown_provider providers []) [
          | err e ↦ err e
          | ok selected ↦ ok (keep (λ k. chosen k selected) default_mas_auth_providers)
        ]

    unfoldable pub parse_mas_auth_providers : String → Result (List String)
    unfolding normalize_mas_auth_providers
    parse_mas_auth_providers raw =
        if trim_space raw == ""
        then ok []
        else normalize_mas_auth_providers (fields is_blank_or_comma (trim_space raw))

    unfoldable pub mas_auth_providers_string : List String → String
    unfolding normalize_mas_auth_providers
    mas_auth_providers_string providers = elim (normalize_mas_auth_providers providers) [
      | err e ↦ join "," providers
      | ok normalized ↦ join "," normalized
    ]
