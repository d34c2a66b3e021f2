-- ===== src/Config/Settings.antt =====
-- The configuration types and defaults of services/scim-bridge/internal/config/config.go.
use mas_iam_operator.Prelude.{ℕ, String, Bool, true, false, List, [], ◌*◌}
use mas_iam_operator.Prelude.Dict.{Dict}

pub record KeycloakConfig : Type 0 where
  pub base_url : String
  pub realm : String
  pub client_id : String
  pub client_secret : String
  pub ca_file : String
  pub insecure_skip_verify : Bool
  pub include_federated_users : Bool

pub record MasConfig : Type 0 where
  pub base_url : String
  pub profile_id : String
  pub profile_map : Dict String
  pub profile_require_label : Bool
  pub ca_file : String
  pub auth_type : String
  pub token : String
  pub api_token_name : String
  pub api_token_value : String
  pub insecure_skip_verify : Bool
  pub payload_logging : Bool

-- A `time.Duration` is an `int64` of nanoseconds; `PollInterval` is kept as its sign and size.
pub data Duration : Type 0 where
  nanoseconds : ℕ → Duration
  negative : ℕ → Duration

pub record BridgeConfig : Type 0 where
  pub mode : String
  pub poll_interval : Duration
  pub state_backend : String
  pub dry_run : Bool
  pub state_path : String
  pub allow_updates : Bool
  pub include_usernames : List String
  pub include_username_prefix : String
  pub include_groups : List String
  pub log_level : String
  pub payload_logging : Bool

pub record Settings : Type 0 where
  pub keycloak : KeycloakConfig
  pub mas : MasConfig
  pub bridge : BridgeConfig

abbrev pub default_keycloak : KeycloakConfig
default_keycloak = record {
  base_url = "";
  realm = "master";
  client_id = "";
  client_secret = "";
  ca_file = "";
  insecure_skip_verify = false;
  include_federated_users = false;
}

abbrev pub default_mas : MasConfig
default_mas = record {
  base_url = "";
  profile_id = "";
  profile_map = [];
  profile_require_label = false;
  ca_file = "";
  auth_type = "api-key";
  token = "";
  api_token_name = "";
  api_token_value = "";
  insecure_skip_verify = false;
  payload_logging = false;
}

abbrev pub default_bridge : BridgeConfig
default_bridge = record {
  mode = "poll";
  poll_interval = nanoseconds (5 * 60 * 1_000_000_000);
  state_backend = "memory";
  dry_run = true;
  state_path = "";
  allow_updates = true;
  include_usernames = [];
  include_username_prefix = "";
  include_groups = [];
  log_level = "info";
  payload_logging = false;
}

abbrev pub default_settings : Settings
default_settings = record {
  keycloak = default_keycloak;
  mas = default_mas;
  bridge = default_bridge;
}
