-- ===== src/Config/Validate.antt =====
-- `Validate` of services/scim-bridge/internal/config/config.go.
pub mod Sound
use mas_iam_operator.Prelude.{
  zero, suc, String, Bool, true, false, not, ◌&&◌, ◌||◌, Option, none, some, List, [], ◌∷◌, ◌++◌,
  ◌==◌, if◌then◌else◌, is_nil, has,
}
use mas_iam_operator.Prelude.Text.{CaseTable, to_lower, join}
use mas_iam_operator.Errors.{Error, message, Result, ok, err, wrap_result}
use mas_iam_operator.Config.Settings.{Settings, Duration, nanoseconds, negative}

-- `if test { problems = append(problems, text) }`
abbrev problem : Bool → String → List String
problem test text = if test then text ∷ [] else []

not_positive : Duration → Bool
not_positive (nanoseconds zero) = true
not_positive (nanoseconds (suc n)) = false
not_positive (negative n) = true

unfoldable pub problems : Settings → List String
unfolding not_positive
problems s =
    problem (s.keycloak.base_url == "") "keycloak base URL is required"
    ++ (problem (s.keycloak.client_id == "") "keycloak client ID is required"
        ++ (problem (s.keycloak.client_secret == "") "keycloak client secret is required"
            ++ (problem (s.mas.base_url == "") "MAS base URL is required"
                ++ (problem (s.mas.profile_id == "") "MAS profile ID is required"
                    ++ (problem
                          ((s.mas.token == "")
                            && ((s.mas.api_token_name == "") || (s.mas.api_token_value == "")))
                          "MAS token is required (or set MAS_API_TOKEN_NAME / MAS_API_TOKEN_VALUE for on-demand fetch)"
                        ++ problem (not_positive s.bridge.poll_interval)
                            "poll interval must be > 0")))))

module _ ⦃u : CaseTable⦄ (parse_request_uri : String → Result (Unit {0})) where
  -- The tests after those of the two URLs.
  check_names : Settings → Option Error
  check_names s =
      if not (has (to_lower s.mas.auth_type) ("api-key" ∷ "jwt" ∷ []))
      then some (message "mas auth type must be 'api-key' or 'jwt'")
      else if not (has s.bridge.mode ("poll" ∷ "hybrid" ∷ "run-once" ∷ "backfill" ∷ []))
      then some (message "bridge mode must be poll, hybrid, run-once, or backfill")
      else if not (has s.bridge.state_backend ("memory" ∷ "filesystem" ∷ "postgresql" ∷ []))
      then some (message "state backend must be memory, filesystem, or postgresql")
      else if not (has s.bridge.log_level ("debug" ∷ "info" ∷ "warn" ∷ "error" ∷ []))
      then some (message "bridge log level must be debug, info, warn, or error")
      else if (s.bridge.state_backend == "filesystem") && (s.bridge.state_path == "")
      then some (message "bridge.state_path is required when state backend is filesystem")
      else none

  check_urls : Settings → Option Error
  unfolding check_names
  check_urls s =
      elim (wrap_result "invalid Keycloak base URL" (parse_request_uri s.keycloak.base_url)) [
        | err e ↦ some e
        | ok _ ↦ elim (wrap_result "invalid MAS base URL" (parse_request_uri s.mas.base_url)) [
          | err e ↦ some e
          | ok _ ↦ check_names s
        ]
      ]

  unfoldable pub validate : Settings → Option Error
  unfolding problems check_urls has
  validate s =
      if not (is_nil (problems s)) then some (message (join "; " (problems s))) else check_urls s
