-- ===== src/Installer/Settings.antt =====
-- The types, names and defaults of tools/mas-iam-installer/internal/config/install.go.
use mas_iam_operator.Prelude.{ℕ, String, Bool, true, false, List, []}

pub record InstallConfig : Type 0 where
  pub components : List String
  pub namespace : String
  pub mas_base_url : String
  pub mas_api_token_name : String
  pub mas_api_token_value : String
  pub workspace_id : String
  pub profile_id : String
  pub mas_instance_id : String
  pub mas_core_namespace : String
  pub configure_mas_auth : Bool
  pub mas_auth_host : String
  pub mas_auth_core_namespace : String
  pub mas_auth_instance_id : String
  pub mas_auth_providers : List String
  pub mas_auth_use_cr_apply : Bool
  pub skip_s3_mas_config : Bool
  pub storage_class : String
  pub scim_bridge_storage_class : String
  pub keycloak_bootstrap_method : String
  pub wipe_first : Bool
  pub smtp_relay_host : String
  pub smtp_relay_port : ℕ
  pub smtp_relay_username : String
  pub smtp_relay_password : String
  pub smtp_relay_from : String
  pub smtp_relay_auth : String
  pub smtp_relay_start_tls : Bool
  pub smtp_relay_allowed_rcpt : String
  pub idp_cfg_memory_limit : String

pub record WipeConfig : Type 0 where
  pub namespace : String
  pub profile_id : String
  pub skip_profile_delete : Bool
  pub mas_base_url : String
  pub mas_api_token_name : String
  pub mas_api_token_value : String

abbrev pub default_install_config : InstallConfig
default_install_config = record {
  components = [];
  namespace = "mas-est";
  mas_base_url = "";
  mas_api_token_name = "";
  mas_api_token_value = "";
  workspace_id = "";
  profile_id = "demo";
  mas_instance_id = "";
  mas_core_namespace = "";
  configure_mas_auth = false;
  mas_auth_host = "";
  mas_auth_core_namespace = "";
  mas_auth_instance_id = "";
  mas_auth_providers = [];
  mas_auth_use_cr_apply = false;
  skip_s3_mas_config = false;
  storage_class = "";
  scim_bridge_storage_class = "";
  keycloak_bootstrap_method = "script";
  wipe_first = false;
  smtp_relay_host = "";
  smtp_relay_port = 587;
  smtp_relay_username = "";
  smtp_relay_password = "";
  smtp_relay_from = "";
  smtp_relay_auth = "plain";
  smtp_relay_start_tls = true;
  smtp_relay_allowed_rcpt = "";
  idp_cfg_memory_limit = "2Gi";
}

abbrev pub default_wipe_config : WipeConfig
default_wipe_config = record {
  namespace = "mas-est";
  profile_id = "demo";
  skip_profile_delete = false;
  mas_base_url = "";
  mas_api_token_name = "";
  mas_api_token_value = "";
}
