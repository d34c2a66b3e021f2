-- ===== src/Installer/Validate.antt =====
-- The validation and the completion of the values of an installation:
-- tools/mas-iam-installer/internal/config/install.go.
pub mod Missing
pub mod Complete
use mas_iam_operator.Prelude.{
  ℕ, zero, suc, ◌+◌, ◌-◌, ◌*◌, ◌≤◌, ◌<◌, String, ◌<>◌, ◌≡◌, refl, sym, ap, ◌∙◌, ◌≢◌, ◌↔◌, ◌⊎◌, inl,
  inr, Bool, true, false, not, ◌&&◌, ◌||◌, Option, none, some, List, [], ◌∷◌, ◌++◌, arith, ◌==◌,
  starts_with, eq_iff, eq_refl, ltb, leb, nat_beq, if◌then◌else◌, Bool-cases, Option-cases, is_some,
  is_nil, length, take, drop, keep, All, has, has-append,
}
use mas_iam_operator.Errors.{
  ResponseError, Error, message, response, mas_unauthorized, wrapped, as_response, is_unauthorized,
  Result, ok, err, wrap_error, wrap_result,
}
use mas_iam_operator.Prelude.Text.{CaseTable, trim_space, join}
use mas_iam_operator.Installer.Settings.{InstallConfig, WipeConfig}
use mas_iam_operator.Installer.Components.{
  Quoting, normalize_install_components, normalize_mas_auth_providers, component_order,
  default_mas_auth_providers,
}

unfoldable pub is_blank : String → Bool
is_blank value = trim_space value == ""

-- `if test { missing = append(missing, text) }`
abbrev pub missing_if : Bool → String → List String
missing_if test text = if test then text ∷ [] else []

-- The values that a MAS profile of the bridge needs.
unfoldable pub missing_scim : InstallConfig → List String
unfolding is_blank
missing_scim c =
    missing_if (is_blank c.mas_base_url) "--mas-base-url / SCIM_BRIDGE_MAS_BASE_URL"
    ++ (missing_if (is_blank c.mas_api_token_name)
          "--mas-api-token-name / SCIM_BRIDGE_MAS_API_TOKEN_NAME"
        ++ (missing_if (is_blank c.mas_api_token_value)
              "--mas-api-token-value / SCIM_BRIDGE_MAS_API_TOKEN_VALUE"
            ++ (missing_if (is_blank c.workspace_id)
                  "--workspace-id / SCIM_BRIDGE_MAS_PROFILE_BOOTSTRAP_WORKSPACE_ID"
                ++ missing_if (is_blank c.profile_id) "--profile-id / SCIM_BRIDGE_MAS_PROFILE_ID")))

unfoldable pub missing_components : InstallConfig → List String → List String
unfolding is_blank has missing_scim
missing_components c normalized =
    missing_if (is_blank c.namespace) "--namespace / MAS_EST_NAMESPACE"
    ++ (missing_if
          (not (has "ldap" normalized)
            && (not (has "keycloak" normalized)
                && (not (has "scim" normalized)
                    && (not (has "s3" normalized) && not (has "smtp" normalized)))))
          "--components / MAS_EST_COMPONENTS"
        ++ ((if has "scim" normalized then missing_scim c else [])
            ++ (if has "s3" normalized && not c.skip_s3_mas_config
                then missing_if (is_blank c.mas_instance_id && is_blank c.mas_core_namespace)
                    "--mas-instance-id / MAS_INSTANCE_ID"
                else [])))

-- The providers to configure: all of them when none is named.
abbrev pub or_default_providers : List String → List String
or_default_providers providers = if is_nil providers then default_mas_auth_providers else providers

unfoldable pub missing_auth : InstallConfig → List String → List String → List String
unfolding is_blank has
missing_auth c normalized providers =
    missing_if (has "ldap" providers && not (has "ldap" normalized)) "--components ldap"
    ++ (missing_if
          ((has "oidc" providers || has "saml" providers) && not (has "keycloak" normalized))
          "--components keycloak"
        ++ (missing_if
              (is_blank c.mas_auth_instance_id
                && (is_blank c.mas_auth_core_namespace
                    && (is_blank c.mas_instance_id && is_blank c.mas_core_namespace)))
              "--mas-auth-instance-id / MAS_AUTH_INSTANCE_ID"
            ++ missing_if (is_blank c.workspace_id && not (has "scim" normalized))
                "--workspace-id / SCIM_BRIDGE_MAS_PROFILE_BOOTSTRAP_WORKSPACE_ID"))

-- The error that names the missing values, if there are any.
abbrev pub report_missing : String → List String → Option Error
report_missing text missing =
    if is_nil missing then none else some (message (text <> (": " <> join ", " missing)))

unfoldable pub validate_wipe : WipeConfig → Option Error
unfolding is_blank
validate_wipe c = report_missing "missing required uninstall values" (
    missing_if (is_blank c.namespace) "--namespace / MAS_EST_NAMESPACE"
    ++ missing_if (is_blank c.profile_id) "--profile-id / SCIM_BRIDGE_MAS_PROFILE_ID")

module _ ⦃u : CaseTable⦄ ⦃q : Quoting⦄ where
  -- The values missing for the identity providers; none are when they are not configured.
  missing_auth_of : InstallConfig → List String → Result (List String)
  unfolding missing_auth
  missing_auth_of c normalized =
      if not c.configure_mas_auth
      then ok []
      else elim (normalize_mas_auth_providers c.mas_auth_providers) [
        | err e ↦ err e
        | ok providers ↦ ok (missing_auth c normalized (or_default_providers providers))
      ]

  unfoldable pub validate_install : InstallConfig → Option Error
  unfolding missing_components missing_auth_of
  validate_install c = elim (normalize_install_components c.components) [
    | err e ↦ some e
    | ok normalized ↦ elim (missing_auth_of c normalized) [
      | err e ↦ some e
      | ok auth ↦
          report_missing "missing required install values" (missing_components c normalized ++ auth)
    ]
  ]

  unfoldable pub has_mas_auth_provider : InstallConfig → String → Bool
  unfolding has
  has_mas_auth_provider c provider = elim (normalize_mas_auth_providers c.mas_auth_providers) [
    | err e ↦ false
    | ok providers ↦
        has provider (
          if is_nil providers && c.configure_mas_auth
          then default_mas_auth_providers
          else providers)
  ]

  unfoldable pub has_component : InstallConfig → String → Bool
  unfolding has
  has_component c component = elim (normalize_install_components c.components) [
    | err e ↦ false
    | ok normalized ↦ has component normalized
  ]

  unfoldable pub normalize_components : InstallConfig → Result InstallConfig
  normalize_components c = elim (normalize_install_components c.components) [
    | err e ↦ err e
    | ok normalized ↦ ok (record c { components = normalized })
  ]
