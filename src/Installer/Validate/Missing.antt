-- ===== src/Installer/Validate/Missing.antt =====
-- The missing values that `InstallConfig.Validate` of
-- tools/mas-iam-installer/internal/config/install.go collects.
use mas_iam_operator.Prelude.{
  String, ◌≡◌, refl, ◌↔◌, Bool, true, false, not, ◌&&◌, ◌||◌, List, [], ◌∷◌, ◌++◌, arith, is_nil,
  All, has,
}
use mas_iam_operator.Errors.{Result, ok, err}
use mas_iam_operator.Prelude.Text.{CaseTable}
use mas_iam_operator.Installer.Settings.{InstallConfig}
use mas_iam_operator.Installer.Components.{
  Quoting, normalize_install_components, normalize_mas_auth_providers,
}
use mas_iam_operator.Installer.Validate.{
  is_blank, missing_if, missing_scim, missing_components, missing_auth, or_default_providers,
  has_component, has_mas_auth_provider,
}

abbrev accepted : Result (List String) → Bool
accepted (ok values) = true
accepted (err e) = false

module _ ⦃u : CaseTable⦄ ⦃q : Quoting⦄ where
  -- The identity providers of the configuration can be set up with its components.
  abbrev pub CanConfigureAuth : InstallConfig → Type 0
  CanConfigureAuth c =
      (accepted (normalize_mas_auth_providers c.mas_auth_providers) ≡ true)
      × ((has_mas_auth_provider c "ldap" ≡ true → has_component c "ldap" ≡ true)
          × ((has_mas_auth_provider c "oidc" ≡ true → has_component c "keycloak" ≡ true)
              × ((has_mas_auth_provider c "saml" ≡ true → has_component c "keycloak" ≡ true)
                  × (((is_blank c.mas_auth_instance_id
                          && is_blank c.mas_auth_core_namespace
                          && is_blank c.mas_instance_id
                          && is_blank c.mas_core_namespace)
                        ≡ false)
                      × (is_blank c.workspace_id ≡ true → has_component c "scim" ≡ true)))))

  -- The namespace, a component and what the chosen components need are there.
  abbrev pub HasValues : InstallConfig → Type 0
  HasValues c =
      (is_blank c.namespace ≡ false)
      × (((has_component c "ldap"
              || has_component c "keycloak"
              || has_component c "scim"
              || has_component c "s3"
              || has_component c "smtp")
            ≡ true)
          × ((has_component c "scim" ≡ true
                → All (λ v. is_blank v ≡ false)
                    (c.mas_base_url ∷ c.mas_api_token_name ∷ c.mas_api_token_value ∷ c.workspace_id
                      ∷ c.profile_id ∷ []))
              × (has_component c "s3" ≡ true
                  → c.skip_s3_mas_config ≡ false
                  → (is_blank c.mas_instance_id && is_blank c.mas_core_namespace) ≡ false)))

  abbrev pub IsInstallable : InstallConfig → Type 0
  IsInstallable c = HasValues c × (c.configure_mas_auth ≡ true → CanConfigureAuth c)

is_nil-missing_if :
    (test : Bool) (text : String) (rest : List String)
    → is_nil (missing_if test text ++ rest) ≡ (not test && is_nil rest)
is_nil-missing_if true text rest = refl
is_nil-missing_if false text rest = refl

is_nil-append : (xs ys : List String) → is_nil (xs ++ ys) ≡ (is_nil xs && is_nil ys)
is_nil-append [] ys = refl
is_nil-append (x ∷ xs) ys = refl

is_nil-missing_scim :
    (c : InstallConfig)
    → is_nil (missing_scim c) ≡ (
        not (is_blank c.mas_base_url)
        && (not (is_blank c.mas_api_token_name)
            && (not (is_blank c.mas_api_token_value)
                && (not (is_blank c.workspace_id) && not (is_blank c.profile_id)))))
unfolding missing_scim
is_nil-missing_scim c = ground arith

module _ ⦃u : CaseTable⦄ ⦃q : Quoting⦄ (c : InstallConfig) where
  has_component-normalized :
      (ns : List String)
      → normalize_install_components c.components ≡ ok ns
      → (k : String) → has_component c k ≡ has k ns
  unfolding has_component
  has_component-normalized ns e k = rw (has_component, e) refl

  has_mas_auth_provider-normalized :
      (ps : List String)
      → normalize_mas_auth_providers c.mas_auth_providers ≡ ok ps
      → c.configure_mas_auth ≡ true
      → (k : String) → has_mas_auth_provider c k ≡ has k (or_default_providers ps)
  unfolding has_mas_auth_provider
  has_mas_auth_provider-normalized ps e h k = rw (has_mas_auth_provider, e, h) (ground arith)

  is_nil-missing_components_of :
      (ns : List String)
      → is_nil (missing_components c ns) ≡ (
          not (is_blank c.namespace)
          && ((has "ldap" ns || has "keycloak" ns || has "scim" ns || has "s3" ns || has "smtp" ns)
              && ((not (has "scim" ns) || is_nil (missing_scim c))
                  && (not (has "s3" ns)
                      || c.skip_s3_mas_config
                      || not (is_blank c.mas_instance_id && is_blank c.mas_core_namespace)))))
  unfolding missing_components
  is_nil-missing_components_of ns = simp is_nil-append (ground arith)

  pub is_nil-missing_components :
      (ns : List String)
      → normalize_install_components c.components ≡ ok ns
      → is_nil (missing_components c ns) ≡ true ↔ HasValues c
  is_nil-missing_components ns e =
      let parts = is_nil-missing_components_of ns in
      let bridge = is_nil-missing_scim c in
      let ldap = has_component-normalized ns e "ldap" in
      let keycloak = has_component-normalized ns e "keycloak" in
      let scim = has_component-normalized ns e "scim" in
      let s3 = has_component-normalized ns e "s3" in
      let smtp = has_component-normalized ns e "smtp" in
      (
        (λ h. ground (arith, h, parts, bridge, ldap, keycloak, scim, s3, smtp)),
        (λ h. ground (arith, h, parts, bridge, ldap, keycloak, scim, s3, smtp)),
      )

  is_nil-missing_auth_of :
      (ns ps : List String)
      → is_nil (missing_auth c ns ps) ≡ (
          (not (has "ldap" ps) || has "ldap" ns)
          && ((not (has "oidc" ps || has "saml" ps) || has "keycloak" ns)
              && (not (
                    is_blank c.mas_auth_instance_id
                    && (is_blank c.mas_auth_core_namespace
                        && (is_blank c.mas_instance_id && is_blank c.mas_core_namespace)))
                  && (not (is_blank c.workspace_id) || has "scim" ns))))
  unfolding missing_auth
  is_nil-missing_auth_of ns ps = simp is_nil-append (ground arith)

  pub is_nil-missing_auth :
      (ns ps : List String)
      → normalize_install_components c.components ≡ ok ns
      → normalize_mas_auth_providers c.mas_auth_providers ≡ ok ps
      → c.configure_mas_auth ≡ true
      → is_nil (missing_auth c ns (or_default_providers ps)) ≡ true ↔ CanConfigureAuth c
  is_nil-missing_auth ns ps e f h =
      let auth = is_nil-missing_auth_of ns (or_default_providers ps) in
      let ldap = has_component-normalized ns e "ldap" in
      let keycloak = has_component-normalized ns e "keycloak" in
      let scim = has_component-normalized ns e "scim" in
      let p_ldap = has_mas_auth_provider-normalized ps f h "ldap" in
      let p_oidc = has_mas_auth_provider-normalized ps f h "oidc" in
      let p_saml = has_mas_auth_provider-normalized ps f h "saml" in
      rw f (
        (λ m. ground (arith, m, auth, ldap, keycloak, scim, p_ldap, p_oidc, p_saml)),
        (λ m. ground (arith, m, auth, ldap, keycloak, scim, p_ldap, p_oidc, p_saml)),
      )
