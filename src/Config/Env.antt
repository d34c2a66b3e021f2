-- ===== src/Config/Env.antt =====
-- `ApplyEnvOverrides` of services/scim-bridge/internal/config/config.go.
use mas_iam_operator.Prelude.{
  String, ◌<>◌, Bool, not, ◌||◌, none, some, List, [], ◌∷◌, ◌++◌, ◌==◌, if◌then◌else◌, is_nil,
}
use mas_iam_operator.Prelude.Text.{CaseTable, trim_space, to_lower, equal_fold}
use mas_iam_operator.Prelude.Dict.{Dict}
use mas_iam_operator.Errors.{Result, ok, err, wrap_result}
use mas_iam_operator.Config.Settings.{KeycloakConfig, MasConfig, BridgeConfig, Duration, Settings}
use mas_iam_operator.Config.Parse.{
  parse_list, parse_profile_map_pairs, parse_profile_map_json, normalize_profile_map,
}
use mas_iam_operator.Prelude.Dict

unfoldable pub env_name : String → String
env_name suffix = "SCIM_BRIDGE" <> ("_" <> suffix)

unfoldable pub is_on : String → Bool
is_on v = (v == "1") || equal_fold v "true"

unfoldable pub is_off : String → Bool
is_off v = (v == "0") || equal_fold v "false"

-- An entry of the table: the variable's suffix, and what its value does.
pub record Override : Type 0 where
  pub suffix : String
  pub apply : String → Settings → Result Settings

abbrev on_keycloak :
    (String → KeycloakConfig → KeycloakConfig) → String → Settings → Result Settings
on_keycloak f v cfg = ok (record cfg { keycloak = f v cfg.keycloak })

abbrev on_mas : (String → MasConfig → MasConfig) → String → Settings → Result Settings
on_mas f v cfg = ok (record cfg { mas = f v cfg.mas })

abbrev on_bridge : (String → BridgeConfig → BridgeConfig) → String → Settings → Result Settings
on_bridge f v cfg = ok (record cfg { bridge = f v cfg.bridge })

-- A mapping replaces the one before it unless it is empty.
set_profile_map : Dict String → Settings → Settings
set_profile_map mapping cfg =
    if is_nil mapping then cfg else record cfg { mas = record (cfg.mas) { profile_map = mapping } }

on_profile_map : Result (Dict String) → Settings → Result Settings
unfolding set_profile_map
on_profile_map (ok mapping) cfg = ok (set_profile_map mapping cfg)
on_profile_map (err e) cfg = err e

on_poll_interval : Result Duration → Settings → Result Settings
on_poll_interval (ok dur) cfg =
    ok (record cfg { bridge = record (cfg.bridge) { poll_interval = dur } })
on_poll_interval (err e) cfg = err e

abbrev override : String → (String → Settings → Result Settings) → Override
override suffix apply = record { suffix = suffix; apply = apply }

keycloak_overrides : List Override
unfolding is_on
keycloak_overrides =
    override "KEYCLOAK_BASE_URL" (on_keycloak λ v c. record c { base_url = v })
    ∷ override "KEYCLOAK_REALM" (on_keycloak λ v c. record c { realm = v })
    ∷ override "KEYCLOAK_CLIENT_ID" (on_keycloak λ v c. record c { client_id = v })
    ∷ override "KEYCLOAK_CLIENT_SECRET" (on_keycloak λ v c. record c { client_secret = v })
    ∷ override "KEYCLOAK_CA_FILE" (on_keycloak λ v c. record c { ca_file = v })
    ∷ override "KEYCLOAK_INSECURE_SKIP_VERIFY"
        (on_keycloak λ v c. record c { insecure_skip_verify = is_on v })
    ∷ override "KEYCLOAK_INCLUDE_FEDERATED_USERS"
        (on_keycloak λ v c. record c { include_federated_users = is_on v })
    ∷ []

module _ ⦃u : CaseTable⦄ (unmarshal : String → Result (Dict String))
    (parse_duration : String → Result Duration) where
  mas_overrides : List Override
  unfolding is_on on_profile_map
  mas_overrides =
      override "MAS_BASE_URL" (on_mas λ v m. record m { base_url = v })
      ∷ override "MAS_PROFILE_ID" (on_mas λ v m. record m { profile_id = v })
      ∷ override "MAS_PROFILE_MAP" (λ v cfg. on_profile_map (parse_profile_map_pairs v) cfg)
      ∷ override "MAS_PROFILE_MAP_JSON"
          (λ v cfg. on_profile_map (parse_profile_map_json unmarshal v) cfg)
      ∷ override "MAS_PROFILE_REQUIRE_LABEL"
          (on_mas λ v m. record m { profile_require_label = is_on v })
      ∷ override "MAS_CA_FILE" (on_mas λ v m. record m { ca_file = v })
      ∷ override "MAS_AUTH_TYPE" (on_mas λ v m. record m { auth_type = to_lower v })
      ∷ override "MAS_TOKEN" (on_mas λ v m. record m { token = v })
      ∷ override "MAS_API_TOKEN_NAME" (on_mas λ v m. record m { api_token_name = v })
      ∷ override "MAS_API_TOKEN_VALUE" (on_mas λ v m. record m { api_token_value = v })
      ∷ override "MAS_INSECURE_SKIP_VERIFY"
          (on_mas λ v m. record m { insecure_skip_verify = is_on v })
      ∷ []

  bridge_overrides : List Override
  unfolding is_on is_off on_poll_interval
  bridge_overrides =
      override "BRIDGE_MODE" (on_bridge λ v b. record b { mode = to_lower v })
      ∷ override "BRIDGE_POLL_INTERVAL" (λ v cfg. on_poll_interval (parse_duration v) cfg)
      ∷ override "BRIDGE_STATE_BACKEND" (on_bridge λ v b. record b { state_backend = to_lower v })
      ∷ override "BRIDGE_STATE_PATH" (on_bridge λ v b. record b { state_path = v })
      ∷ override "BRIDGE_DRY_RUN" (on_bridge λ v b. record b { dry_run = is_on v })
      ∷ override "BRIDGE_ALLOW_UPDATES"
          (on_bridge λ v b. record b { allow_updates = not (is_off v) })
      ∷ override "BRIDGE_LOG_LEVEL"
          (on_bridge λ v b. record b { log_level = to_lower (trim_space v) })
      ∷ override "BRIDGE_PAYLOAD_LOGGING" (on_bridge λ v b. record b { payload_logging = is_on v })
      ∷ override "INCLUDE_USERNAMES"
          (on_bridge λ v b. record b { include_usernames = parse_list v })
      ∷ override "INCLUDE_USERNAME_PREFIX"
          (on_bridge λ v b. record b { include_username_prefix = v })
      ∷ override "INCLUDE_GROUPS" (on_bridge λ v b. record b { include_groups = parse_list v })
      ∷ []

  -- The loop over the table; `env` is what `os.LookupEnv` finds.
  apply_all : Dict String → List Override → Settings → Result Settings
  apply_all env [] cfg = ok cfg
  apply_all env (ov ∷ overrides) cfg = elim (Dict.lookup (env_name ov.suffix) env) [
    | none ↦ apply_all env overrides cfg
    | some value ↦ elim (wrap_result ("env " <> env_name ov.suffix) (ov.apply value cfg)) [
      | err e ↦ err e
      | ok cfg' ↦ apply_all env overrides cfg'
    ]
  ]

  unfoldable pub apply_env_overrides : Dict String → Settings → Result Settings
  unfolding keycloak_overrides mas_overrides bridge_overrides apply_all env_name
  apply_env_overrides env cfg =
      elim (apply_all env (keycloak_overrides ++ (mas_overrides ++ bridge_overrides)) cfg) [
        | err e ↦ err e
        | ok cfg' ↦ ok (record cfg' {
          mas = record (cfg'.mas) { profile_map = normalize_profile_map cfg'.mas.profile_map };
        })
      ]
