-- ===== src/Tests/Installer.antt =====
-- The theorems on the installer's values, checks and clients, at one installation.
use mas_iam_operator.Prelude.{
  ℕ, ◌-◌, ◌≤◌, String, ◌≡◌, refl, ◌↔◌, true, false, none, List, [], ◌∷◌, length, take, has,
}
use mas_iam_operator.Errors.{ok}
use mas_iam_operator.Prelude.Text.{trim_space, to_lower}
use mas_iam_operator.Prelude.Dict.{Dict}
use mas_iam_operator.Prelude.Sort.{Distinct}
use mas_iam_operator.Installer.Settings.{InstallConfig, default_install_config}
use mas_iam_operator.Installer.Components.{normalize_install_components}
use mas_iam_operator.Installer.Components.Closure.{Requires, has-normalize_install_components}
use mas_iam_operator.Installer.Components.Chosen.{cleaned}
use mas_iam_operator.Installer.Environment.{
  Strconv, load_install_config_from_env, install_script_env,
}
use mas_iam_operator.Installer.Environment.RoundTrip.{
  value_or, load_install_config_from_env-install_script_env,
}
use mas_iam_operator.Installer.Validate.{validate_install}
use mas_iam_operator.Installer.Validate.Complete.{validate_install-IsInstallable}
use mas_iam_operator.Installer.Validate.Missing.{IsInstallable}
use mas_iam_operator.Installer.Secret.{mask_secret, repeat}
use mas_iam_operator.Installer.Secret.Bounds.{shown, mask_secret_bounds}
use mas_iam_operator.Installer.Storage.{StorageClass, rank_storage_classes}
use mas_iam_operator.Installer.Storage.Partition.{class_names}
use mas_iam_operator.Installer.Storage.Indexed.{names}
use mas_iam_operator.Installer.Storage.Start.{is_dynamic_name}
use mas_iam_operator.Installer.Storage.Listed.{
  rank_storage_classes_complete, rank_storage_classes_recommended,
}
use mas_iam_operator.Tests.Fixtures.{ascii, quoting}
use mas_iam_operator.Prelude.Dict

instance strconv : Strconv
strconv = record { parse_bool = λ s. none; atoi = λ s. none }

-- A bridge without Keycloak and LDAP by name.
abbrev bridge_install : InstallConfig
bridge_install = record default_install_config {
  components = "SCIM" ∷ " s3 " ∷ [];
  mas_base_url = "https://api/scim/v2";
  mas_api_token_name = "n";
  mas_api_token_value = "v";
  workspace_id = "w";
  mas_instance_id = "i";
}

abbrev bridge_components : List String
bridge_components = "ldap" ∷ "keycloak" ∷ "scim" ∷ "s3" ∷ []

bridge_normalized : normalize_install_components bridge_install.components ≡ ok bridge_components
unfolding normalize_install_components to_lower trim_space Dict.lookup Dict.insert
bridge_normalized = refl

has-normalize_install_components_example :
    (has "ldap" bridge_components ≡ true)
    ↔ ((c : String) × ((has c (cleaned ("SCIM" ∷ " s3 " ∷ [])) ≡ true) × Requires c "ldap"))
has-normalize_install_components_example =
    has-normalize_install_components ("SCIM" ∷ " s3 " ∷ []) bridge_components bridge_normalized
      "ldap"

load_install_config_from_env-install_script_env_example :
    ((load_install_config_from_env (install_script_env bridge_install)).components
      ≡ bridge_components)
    × (((load_install_config_from_env (install_script_env bridge_install)).mas_base_url
          ≡ value_or "" "https://api/scim/v2")
        × (((load_install_config_from_env (install_script_env bridge_install)).mas_api_token_name
              ≡ value_or "" "n")
            × (((load_install_config_from_env
                    (install_script_env bridge_install)).mas_api_token_value
                  ≡ value_or "" "v")
                × (((load_install_config_from_env (install_script_env bridge_install)).workspace_id
                      ≡ value_or "" "w")
                    × (((load_install_config_from_env
                            (install_script_env bridge_install)).profile_id
                          ≡ value_or "demo" "demo")
                        × (((load_install_config_from_env
                                (install_script_env bridge_install)).storage_class
                              ≡ value_or "" "")
                            × (((load_install_config_from_env
                                    (install_script_env bridge_install)).scim_bridge_storage_class
                                  ≡ value_or "" "")
                                × ((load_install_config_from_env
                                      (install_script_env bridge_install)).keycloak_bootstrap_method
                                    ≡ value_or "script" "script"))))))))
load_install_config_from_env-install_script_env_example =
    load_install_config_from_env-install_script_env bridge_install bridge_components
      bridge_normalized

validate_install-IsInstallable_example :
    (validate_install bridge_install ≡ none) ↔ IsInstallable bridge_install
validate_install-IsInstallable_example = validate_install-IsInstallable bridge_install

abbrev secret : List ℕ
secret = 115 ∷ 101 ∷ 99 ∷ 114 ∷ 101 ∷ 116 ∷ []

mask_secret_bounds_example :
    (4 ≤ length (mask_secret secret))
    × ((length secret ≤ length (mask_secret secret))
        × (take (length (mask_secret secret) - shown secret) (mask_secret secret)
            ≡ repeat (length (mask_secret secret) - shown secret) b'*'))
mask_secret_bounds_example = mask_secret_bounds secret refl

abbrev classes : List StorageClass
classes =
    record { name = "standard"; is_default = true; provisioner = "csi" }
    ∷ record {
      name = "localblock";
      is_default = false;
      provisioner = "kubernetes.io/no-provisioner";
    }
    ∷ []

rank_storage_classes_complete_example :
    Distinct (names (rank_storage_classes classes).choices)
    × ((k : String)
        → has k (names (rank_storage_classes classes).choices) ≡ has k (class_names classes))
unfolding class_names has
rank_storage_classes_complete_example = rank_storage_classes_complete classes (refl, (refl, tt))

rank_storage_classes_recommended_example :
    ((k : String)
      → is_dynamic_name classes k ≡ true
      → is_dynamic_name classes (rank_storage_classes classes).recommended ≡ true)
    × (((k : String) → is_dynamic_name classes k ≡ false)
        → (rank_storage_classes classes).recommended ≡ "")
unfolding class_names has
rank_storage_classes_recommended_example =
    rank_storage_classes_recommended classes (refl, (refl, tt))
