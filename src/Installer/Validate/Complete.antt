-- ===== src/Installer/Validate/Complete.antt =====
-- What `InstallConfig.Validate` of tools/mas-iam-installer/internal/config/install.go accepts.
use mas_iam_operator.Prelude.{
  String, ◌≡◌, refl, ◌↔◌, inl, inr, true, false, none, some, List, [], ◌∷◌, ◌++◌, arith, Bool-cases,
  is_nil,
}
use mas_iam_operator.Errors.{Error, ok, err, Result-cases}
use mas_iam_operator.Prelude.Text.{CaseTable}
use mas_iam_operator.Installer.Validate.Missing.{
  IsInstallable, is_nil-missing_components, is_nil-missing_auth,
}
use mas_iam_operator.Installer.Settings.{InstallConfig}
use mas_iam_operator.Installer.Components.{
  Quoting, normalize_install_components, normalize_mas_auth_providers,
}
use mas_iam_operator.Installer.Validate.{
  missing_components, missing_auth, missing_auth_of, or_default_providers, report_missing,
  validate_install, has_component,
}

report_missing-none :
    (text : String) (xs ys : List String)
    → (report_missing text (xs ++ ys) ≡ none) ↔ ((is_nil xs ≡ true) × (is_nil ys ≡ true))
report_missing-none text [] [] = ((λ h. (refl, refl)), (λ h. refl))
report_missing-none text [] (y ∷ ys) = ((λ h. cc), (λ (a, b). cc))
report_missing-none text (x ∷ xs) ys = ((λ h. cc), (λ (a, b). cc))

module _ ⦃u : CaseTable⦄ ⦃q : Quoting⦄ (c : InstallConfig) where
  -- The validation of the values in which both lists are accepted.
  report-missing :
      (ns auth : List String)
      → normalize_install_components c.components ≡ ok ns
      → missing_auth_of c ns ≡ ok auth
      → (validate_install c ≡ none)
        ↔ ((is_nil (missing_components c ns) ≡ true) × (is_nil auth ≡ true))
  unfolding validate_install
  report-missing ns auth e f =
      rw (validate_install, e, f)
        (report_missing-none "missing required install values" (missing_components c ns) auth)

  missing_auth_of-off :
      (ns : List String) → c.configure_mas_auth ≡ false → missing_auth_of c ns ≡ ok []
  unfolding missing_auth_of
  missing_auth_of-off ns h = rw h refl

  missing_auth_of-on :
      (ns ps : List String)
      → c.configure_mas_auth ≡ true
      → normalize_mas_auth_providers c.mas_auth_providers ≡ ok ps
      → missing_auth_of c ns ≡ ok (missing_auth c ns (or_default_providers ps))
  unfolding missing_auth_of missing_auth
  missing_auth_of-on ns ps h f = rw (missing_auth_of, h, f) refl

  refused_provider :
      (ns : List String) (x : Error)
      → normalize_install_components c.components ≡ ok ns
      → c.configure_mas_auth ≡ true
      → normalize_mas_auth_providers c.mas_auth_providers ≡ err x
      → validate_install c ≡ some x
  unfolding validate_install missing_auth_of
  refused_provider ns x e h f = rw (validate_install, e, missing_auth_of, h, f) refl

  refused_component :
      (x : Error)
      → normalize_install_components c.components ≡ err x
      → (validate_install c ≡ some x) × ((k : String) → has_component c k ≡ false)
  unfolding validate_install has_component
  refused_component x e = (rw (validate_install, e) refl, λ k. rw (has_component, e) refl)

  normalized_IsInstallable :
      (ns : List String)
      → normalize_install_components c.components ≡ ok ns
      → (validate_install c ≡ none) ↔ IsInstallable c
  normalized_IsInstallable ns e = elim (Bool-cases c.configure_mas_auth) [
    | inr off ↦
        let report = report-missing ns [] e (missing_auth_of-off ns off) in
        let parts = is_nil-missing_components c ns e in
        (λ h. ground (arith, h, off, report, parts), λ h. ground (arith, h, off, report, parts))
    | inl on ↦ elim (Result-cases (normalize_mas_auth_providers c.mas_auth_providers)) [
      | inl (ps, f) ↦
          let report = report-missing ns _ e (missing_auth_of-on ns ps on f) in
          let parts = is_nil-missing_components c ns e in
          let auth = is_nil-missing_auth c ns ps e f on in
          (
            λ h. ground (arith, h, on, report, parts, auth),
            λ h. ground (arith, h, on, report, parts, auth),
          )
      | inr (x, f) ↦
          let refused = refused_provider ns x e on f in
          (λ h. ground (arith, h, refused), λ h. ground (arith, h, on, f))
    ]
  ]

  -- The validation of the values of an installation finds nothing exactly when they are complete.
  pub validate_install-IsInstallable : (validate_install c ≡ none) ↔ IsInstallable c
  validate_install-IsInstallable = elim (Result-cases (normalize_install_components c.components)) [
    | inl (ns, e) ↦ normalized_IsInstallable ns e
    | inr (x, e) ↦
        let refused = refused_component x e in
        (
          λ h. ground (arith, h, refused.0),
          λ h. ground (
            arith,
            h,
            refused.1 "ldap",
            refused.1 "keycloak",
            refused.1 "scim",
            refused.1 "s3",
            refused.1 "smtp",
          ),
        )
  ]
