-- ===== src/Installer/Environment.antt =====
-- The values of an installation that come from the environment:
-- tools/mas-iam-installer/internal/config/install.go.
pub mod RoundTrip
use mas_iam_operator.Prelude.{
  ℕ, zero, suc, ◌+◌, ◌-◌, ◌*◌, ◌≤◌, ◌<◌, String, ◌<>◌, ◌≡◌, refl, sym, ap, ◌∙◌, ◌≢◌, ◌↔◌, ◌⊎◌, inl,
  inr, Bool, true, false, not, ◌&&◌, ◌||◌, Option, none, some, List, [], ◌∷◌, ◌++◌, arith, ◌==◌,
  starts_with, eq_iff, eq_refl, ltb, leb, nat_beq, if◌then◌else◌, Bool-cases, Option-cases, is_some,
  is_nil, length, take, drop, keep, All, has, has-append,
}
use mas_iam_operator.Errors.{
  ResponseError, Error, message, response, mas_unauthorized, wrapped, as_response, is_unauthorized,
  Result, ok, err, wrap_error, wrap_result,
}
use mas_iam_operator.Prelude.Text.{CaseTable, trim_space}
use mas_iam_operator.Prelude.Dict.{Dict}
use mas_iam_operator.Installer.Settings.{
  InstallConfig, WipeConfig, default_install_config, default_wipe_config,
}
use mas_iam_operator.Installer.Components.{
  Quoting, parse_install_components, parse_mas_auth_providers, install_components_string,
}
use mas_iam_operator.Prelude.Dict

pub data ℤ : Type 0 where
  pos : ℕ → ℤ
  negsuc : ℕ → ℤ

-- Go's package `strconv`; no value stands for an error.
pub record Strconv : Type 0 where
  pub parse_bool : String → Option Bool
  pub atoi : String → Option ℤ

-- `os.LookupEnv`, and the test for a value that is not blank
unfoldable pub lookup_env : Dict String → String → Option String
lookup_env env name = elim (Dict.lookup name env) [
  | none ↦ none
  | some value ↦ if trim_space value == "" then none else some value
]

unfoldable pub env_or_default : Dict String → String → String → String
unfolding lookup_env
env_or_default env name fallback = elim (lookup_env env name) [
  | none ↦ fallback
  | some value ↦ value
]

unfoldable pub env_or_default_with_legacy : Dict String → String → String → String → String
unfolding env_or_default
env_or_default_with_legacy env name legacy_name fallback =
    let value = env_or_default env name "" in
    if not (value == "") then value else env_or_default env legacy_name fallback

module _ ⦃p : Strconv⦄ where
  parsed_or : Bool → String → Bool
  parsed_or fallback value = elim (p.parse_bool value) [ none ↦ fallback | some b ↦ b ]

  unfoldable pub bool_env_or_default : Dict String → String → Bool → Bool
  unfolding lookup_env parsed_or
  bool_env_or_default env name fallback = elim (lookup_env env name) [
    | none ↦ fallback
    | some value ↦ parsed_or fallback value
  ]

  -- The loop over the names.
  first_bool_env : Dict String → Bool → List String → Bool
  unfolding lookup_env parsed_or
  first_bool_env env fallback [] = fallback
  first_bool_env env fallback (name ∷ names) = elim (lookup_env env name) [
    | none ↦ first_bool_env env fallback names
    | some value ↦ parsed_or fallback value
  ]

  unfoldable pub bool_env_or_default_with_fallbacks :
      Dict String → String → Bool → List String → Bool
  unfolding lookup_env parsed_or first_bool_env
  bool_env_or_default_with_fallbacks env name fallback fallback_names = elim (lookup_env env name) [
    | none ↦ first_bool_env env fallback fallback_names
    | some value ↦ parsed_or fallback value
  ]

  unfoldable pub bool_env_or_default_with_legacy : Dict String → String → String → Bool → Bool
  unfolding bool_env_or_default_with_fallbacks
  bool_env_or_default_with_legacy env name legacy_name fallback =
      bool_env_or_default_with_fallbacks env name fallback (legacy_name ∷ [])

  -- The port, when the value is a number above zero.
  positive_port : ℕ → Option ℤ → ℕ
  positive_port port none = port
  positive_port port (some (pos zero)) = port
  positive_port port (some (pos (suc n))) = suc n
  positive_port port (some (negsuc n)) = port

  relay_port : Dict String → ℕ → ℕ
  unfolding env_or_default positive_port
  relay_port env port =
      let v = env_or_default env "MAS_EST_SMTP_RELAY_PORT" "" in
      if not (v == "") then positive_port port (p.atoi (trim_space v)) else port

  -- `cfg.Components, _ = …`: the value beside an error is nil.
  or_nil : Result (List String) → List String
  or_nil (ok values) = values
  or_nil (err e) = []

  unfoldable pub load_install_config_from_env :
      ⦃u : CaseTable⦄ → ⦃q : Quoting⦄ → Dict String → InstallConfig
  unfolding env_or_default env_or_default_with_legacy bool_env_or_default
      bool_env_or_default_with_fallbacks relay_port or_nil
  load_install_config_from_env env =
      let d = default_install_config in
      let text = env_or_default env in
      let flag = bool_env_or_default env in
      record {
        components = or_nil (parse_install_components (text "MAS_EST_COMPONENTS" ""));
        namespace =
            env_or_default_with_legacy env "MAS_EST_NAMESPACE" "MAS_IAM_NAMESPACE" d.namespace;
        mas_base_url = text "SCIM_BRIDGE_MAS_BASE_URL" d.mas_base_url;
        mas_api_token_name = text "SCIM_BRIDGE_MAS_API_TOKEN_NAME" d.mas_api_token_name;
        mas_api_token_value = text "SCIM_BRIDGE_MAS_API_TOKEN_VALUE" d.mas_api_token_value;
        workspace_id = text "SCIM_BRIDGE_MAS_PROFILE_BOOTSTRAP_WORKSPACE_ID" d.workspace_id;
        profile_id = text "SCIM_BRIDGE_MAS_PROFILE_ID" d.profile_id;
        mas_instance_id = text "MAS_INSTANCE_ID" d.mas_instance_id;
        mas_core_namespace = text "MAS_CORE_NAMESPACE" d.mas_core_namespace;
        configure_mas_auth = flag "MAS_EST_CONFIGURE_MAS_AUTH" d.configure_mas_auth;
        mas_auth_host = text "MAS_AUTH_HOST" d.mas_auth_host;
        mas_auth_core_namespace = text "MAS_AUTH_CORE_NAMESPACE" d.mas_auth_core_namespace;
        mas_auth_instance_id = text "MAS_AUTH_INSTANCE_ID" d.mas_auth_instance_id;
        mas_auth_providers = or_nil (parse_mas_auth_providers (text "MAS_EST_AUTH_PROVIDERS" ""));
        mas_auth_use_cr_apply = flag "MAS_EST_AUTH_USE_CR_APPLY" d.mas_auth_use_cr_apply;
        skip_s3_mas_config = flag "MAS_EST_SKIP_S3_MAS_CONFIG" d.skip_s3_mas_config;
        storage_class = text "POSTGRES_STORAGE_CLASS" d.storage_class;
        scim_bridge_storage_class = text "SCIM_BRIDGE_STORAGE_CLASS" d.scim_bridge_storage_class;
        keycloak_bootstrap_method =
            text "SCIM_BRIDGE_KEYCLOAK_BOOTSTRAP_METHOD" d.keycloak_bootstrap_method;
        wipe_first =
            bool_env_or_default_with_fallbacks env "MAS_EST_UNINSTALL_FIRST" d.wipe_first
              ("MAS_EST_WIPE_FIRST" ∷ "MAS_IAM_WIPE_FIRST" ∷ []);
        smtp_relay_host = text "MAS_EST_SMTP_RELAY_HOST" d.smtp_relay_host;
        smtp_relay_port = relay_port env d.smtp_relay_port;
        smtp_relay_username = text "MAS_EST_SMTP_RELAY_USERNAME" d.smtp_relay_username;
        smtp_relay_password = text "MAS_EST_SMTP_RELAY_PASSWORD" d.smtp_relay_password;
        smtp_relay_from = text "MAS_EST_SMTP_RELAY_FROM" d.smtp_relay_from;
        smtp_relay_auth = text "MAS_EST_SMTP_RELAY_AUTH" d.smtp_relay_auth;
        smtp_relay_start_tls = flag "MAS_EST_SMTP_RELAY_STARTTLS" d.smtp_relay_start_tls;
        smtp_relay_allowed_rcpt =
            text "MAS_EST_SMTP_RELAY_ALLOWED_RECIPIENTS" d.smtp_relay_allowed_rcpt;
        idp_cfg_memory_limit = text "MAS_EST_IDPCFG_MEMORY_LIMIT" d.idp_cfg_memory_limit;
      }

  unfoldable pub load_wipe_config_from_env : Dict String → WipeConfig
  unfolding env_or_default env_or_default_with_legacy bool_env_or_default_with_legacy
  load_wipe_config_from_env env =
      let d = default_wipe_config in
      let text = env_or_default env in
      record {
        namespace =
            env_or_default_with_legacy env "MAS_EST_NAMESPACE" "MAS_IAM_NAMESPACE" d.namespace;
        profile_id = text "SCIM_BRIDGE_MAS_PROFILE_ID" d.profile_id;
        skip_profile_delete =
            bool_env_or_default_with_legacy env "MAS_EST_SKIP_PROFILE_DELETE"
              "MAS_IAM_SKIP_PROFILE_DELETE" d.skip_profile_delete;
        mas_base_url = text "SCIM_BRIDGE_MAS_BASE_URL" d.mas_base_url;
        mas_api_token_name = text "SCIM_BRIDGE_MAS_API_TOKEN_NAME" d.mas_api_token_name;
        mas_api_token_value = text "SCIM_BRIDGE_MAS_API_TOKEN_VALUE" d.mas_api_token_value;
      }

-- `if value != "" { env[name] = value }`
unfoldable pub set_if : String → String → Dict String → Dict String
set_if name value env = if not (value == "") then Dict.insert name value env else env

module _ ⦃u : CaseTable⦄ ⦃q : Quoting⦄ where
  unfoldable pub install_script_env : InstallConfig → Dict String
  unfolding set_if
  install_script_env c =
      set_if "SCIM_BRIDGE_KEYCLOAK_BOOTSTRAP_METHOD" c.keycloak_bootstrap_method (
        set_if "SCIM_BRIDGE_STORAGE_CLASS" c.scim_bridge_storage_class (
          set_if "POSTGRES_STORAGE_CLASS" c.storage_class (
            set_if "SCIM_BRIDGE_MAS_PROFILE_ID" c.profile_id (
              set_if "SCIM_BRIDGE_MAS_PROFILE_BOOTSTRAP_WORKSPACE_ID" c.workspace_id (
                set_if "SCIM_BRIDGE_MAS_API_TOKEN_VALUE" c.mas_api_token_value (
                  set_if "SCIM_BRIDGE_MAS_API_TOKEN_NAME" c.mas_api_token_name (
                    set_if "SCIM_BRIDGE_MAS_BASE_URL" c.mas_base_url
                      (("MAS_EST_COMPONENTS", install_components_string c.components) ∷ []))))))))

unfoldable pub wipe_script_env : WipeConfig → Dict String
unfolding set_if
wipe_script_env c = set_if "SCIM_BRIDGE_MAS_PROFILE_ID" c.profile_id (
    set_if "SCIM_BRIDGE_MAS_API_TOKEN_VALUE" c.mas_api_token_value (
      set_if "SCIM_BRIDGE_MAS_API_TOKEN_NAME" c.mas_api_token_name
        (set_if "SCIM_BRIDGE_MAS_BASE_URL" c.mas_base_url [])))
