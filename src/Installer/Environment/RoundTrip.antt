-- ===== src/Installer/Environment/RoundTrip.antt =====
-- What a script reads back from the environment that `ScriptEnv` of
-- tools/mas-iam-installer/internal/config/install.go prepares for it.
use mas_iam_operator.Prelude.{
  String, ◌≡◌, refl, sym, ap, ◌∙◌, inl, inr, true, not, ◌&&◌, Option, none, some, List, [], arith,
  ◌==◌, eq_iff, if◌then◌else◌, Bool-cases,
}
use mas_iam_operator.Errors.{ok}
use mas_iam_operator.Prelude.Text.{CaseTable, trim_space}
use mas_iam_operator.Prelude.Dict.{Dict}
use mas_iam_operator.Installer.Settings.{InstallConfig}
use mas_iam_operator.Installer.Components.{
  Quoting, normalize_install_components, install_components_string, parse_install_components,
}
use mas_iam_operator.Installer.Components.RoundTrip.{
  parse_install_components-install_components_string,
}
use mas_iam_operator.Installer.Environment.{
  Strconv, lookup_env, env_or_default, set_if, install_script_env, load_install_config_from_env,
  or_nil,
}
use mas_iam_operator.Prelude.Dict

lookup-set_if :
    (j k v : String) (m : Dict String)
    → Dict.lookup j (set_if k v m) ≡ (if k == j && not (v == "") then some v else Dict.lookup j m)
unfolding set_if
lookup-set_if j k v m = ground (arith, Dict.lookup-insert j k v m)

-- What `envOrDefault` makes of a variable that is set to the value unless that is empty.
unfoldable pub value_or : String → String → String
value_or fallback value = if trim_space value == "" then fallback else value

of_lookup : String → Option String → String
of_lookup fallback none = fallback
of_lookup fallback (some value) = value_or fallback value

env_or_default-of_lookup :
    (env : Dict String) (name fallback : String)
    → env_or_default env name fallback ≡ of_lookup fallback (Dict.lookup name env)
unfolding env_or_default lookup_env of_lookup value_or
env_or_default-of_lookup env name fallback = ground arith

of_lookup-set :
    (fallback v : String)
    → of_lookup fallback (if not (v == "") then some v else none) ≡ value_or fallback v
unfolding of_lookup value_or trim_space
of_lookup-set fallback v = elim (Bool-cases (v == "")) [
  | inl e ↦ rw e (sym (ap (value_or fallback) ((eq_iff v "").0 e)))
  | inr e ↦ rw e refl
]

env_or_default-set :
    (env : Dict String) (name fallback v : String)
    → Dict.lookup name env ≡ (if not (v == "") then some v else none)
    → env_or_default env name fallback ≡ value_or fallback v
env_or_default-set env name fallback v h =
    env_or_default-of_lookup env name fallback
    ∙ (ap (of_lookup fallback) h ∙ of_lookup-set fallback v)

module _ ⦃u : CaseTable⦄ ⦃q : Quoting⦄ (c : InstallConfig) where
  IsSetIn : String → String → Type 0
  IsSetIn name v =
      Dict.lookup name (install_script_env c) ≡ (if not (v == "") then some v else none)

  set_base_url : IsSetIn "SCIM_BRIDGE_MAS_BASE_URL" c.mas_base_url
  unfolding IsSetIn install_script_env Dict.lookup
  set_base_url = simp lookup-set_if refl

  set_api_token_name : IsSetIn "SCIM_BRIDGE_MAS_API_TOKEN_NAME" c.mas_api_token_name
  unfolding IsSetIn install_script_env Dict.lookup
  set_api_token_name = simp lookup-set_if refl

  set_api_token_value : IsSetIn "SCIM_BRIDGE_MAS_API_TOKEN_VALUE" c.mas_api_token_value
  unfolding IsSetIn install_script_env Dict.lookup
  set_api_token_value = simp lookup-set_if refl

  set_workspace_id : IsSetIn "SCIM_BRIDGE_MAS_PROFILE_BOOTSTRAP_WORKSPACE_ID" c.workspace_id
  unfolding IsSetIn install_script_env Dict.lookup
  set_workspace_id = simp lookup-set_if refl

  set_profile_id : IsSetIn "SCIM_BRIDGE_MAS_PROFILE_ID" c.profile_id
  unfolding IsSetIn install_script_env Dict.lookup
  set_profile_id = simp lookup-set_if refl

  set_storage_class : IsSetIn "POSTGRES_STORAGE_CLASS" c.storage_class
  unfolding IsSetIn install_script_env Dict.lookup
  set_storage_class = simp lookup-set_if refl

  set_scim_bridge_storage_class : IsSetIn "SCIM_BRIDGE_STORAGE_CLASS" c.scim_bridge_storage_class
  unfolding IsSetIn install_script_env Dict.lookup
  set_scim_bridge_storage_class = simp lookup-set_if refl

  set_bootstrap_method : IsSetIn "SCIM_BRIDGE_KEYCLOAK_BOOTSTRAP_METHOD" c.keycloak_bootstrap_method
  unfolding IsSetIn install_script_env Dict.lookup
  set_bootstrap_method = simp lookup-set_if refl

  set_components :
      Dict.lookup "MAS_EST_COMPONENTS" (install_script_env c)
      ≡ some (install_components_string c.components)
  unfolding install_script_env Dict.lookup
  set_components = simp lookup-set_if refl

  parse_blank : (v : String) → (trim_space v == "") ≡ true → parse_install_components v ≡ ok []
  unfolding parse_install_components
  parse_blank v e = rw e refl

  parse-value_or :
      (v : String) → parse_install_components (value_or "" v) ≡ parse_install_components v
  unfolding value_or trim_space
  parse-value_or v = elim (Bool-cases (trim_space v == "")) [
    | inl e ↦ rw e (parse_blank "" refl ∙ sym (parse_blank v e))
    | inr e ↦ rw e refl
  ]

  load_components :
      ⦃p : Strconv⦄
      → (ns : List String) → normalize_install_components c.components ≡ ok ns
      → (load_install_config_from_env (install_script_env c)).components ≡ ns
  unfolding load_install_config_from_env or_nil of_lookup
  load_components ns e =
      ap (λ t. or_nil (parse_install_components t))
        (env_or_default-of_lookup (install_script_env c) "MAS_EST_COMPONENTS" ""
          ∙ ap (of_lookup "") set_components)
      ∙ ap or_nil (
          parse-value_or (install_components_string c.components)
          ∙ parse_install_components-install_components_string c.components ns e)

  -- If the components are accepted, a script that loads its configuration from the environment
  -- prepared for it finds them in normal form, and each of the eight texts that are passed on, or
  -- its default where that text is blank: the base address of MAS, the name and the value of the API
  -- token, the workspace, the profile, the two storage classes and the bootstrap method.
  pub load_install_config_from_env-install_script_env :
      ⦃p : Strconv⦄
      → (ns : List String) → normalize_install_components c.components ≡ ok ns
      → ((load_install_config_from_env (install_script_env c)).components ≡ ns)
        × (((load_install_config_from_env (install_script_env c)).mas_base_url
              ≡ value_or "" c.mas_base_url)
            × (((load_install_config_from_env (install_script_env c)).mas_api_token_name
                  ≡ value_or "" c.mas_api_token_name)
                × (((load_install_config_from_env (install_script_env c)).mas_api_token_value
                      ≡ value_or "" c.mas_api_token_value)
                    × (((load_install_config_from_env (install_script_env c)).workspace_id
                          ≡ value_or "" c.workspace_id)
                        × (((load_install_config_from_env (install_script_env c)).profile_id
                              ≡ value_or "demo" c.profile_id)
                            × (((load_install_config_from_env (install_script_env c)).storage_class
                                  ≡ value_or "" c.storage_class)
                                × (((load_install_config_from_env
                                        (install_script_env c)).scim_bridge_storage_class
                                      ≡ value_or "" c.scim_bridge_storage_class)
                                    × ((load_install_config_from_env
                                          (install_script_env c)).keycloak_bootstrap_method
                                        ≡ value_or "script" c.keycloak_bootstrap_method))))))))
  unfolding load_install_config_from_env IsSetIn
  load_install_config_from_env-install_script_env ns e = (
    load_components ns e,
    (
      env_or_default-set _ _ _ _ set_base_url,
      (
        env_or_default-set _ _ _ _ set_api_token_name,
        (
          env_or_default-set _ _ _ _ set_api_token_value,
          (
            env_or_default-set _ _ _ _ set_workspace_id,
            (
              env_or_default-set _ _ _ _ set_profile_id,
              (
                env_or_default-set _ _ _ _ set_storage_class,
                (
                  env_or_default-set _ _ _ _ set_scim_bridge_storage_class,
                  env_or_default-set _ _ _ _ set_bootstrap_method,
                ),
              ),
            ),
          ),
        ),
      ),
    ),
  )
