-- ===== src/Installer/Preflight/Overwrite.antt =====
-- The identity providers that an installation would overwrite: `IDPCfgPlan.Names` and
-- `CheckIDPCfgOverwrite` of tools/mas-iam-installer/internal/preflight/preflight.go.
pub mod Warned
use mas_iam_operator.Prelude.{
  ℕ, zero, suc, ◌+◌, ◌-◌, ◌*◌, ◌≤◌, ◌<◌, String, ◌<>◌, ◌≡◌, refl, sym, ap, ◌∙◌, ◌≢◌, ◌↔◌, ◌⊎◌, inl,
  inr, Bool, true, false, not, ◌&&◌, ◌||◌, Option, none, some, List, [], ◌∷◌, ◌++◌, arith, ◌==◌,
  starts_with, eq_iff, eq_refl, ltb, leb, nat_beq, if◌then◌else◌, Bool-cases, Option-cases, is_some,
  is_nil, length, take, drop, keep, All, has, has-append,
}
use mas_iam_operator.Errors.{
  ResponseError, Error, message, response, mas_unauthorized, wrapped, as_response, is_unauthorized,
  Result, ok, err, wrap_error, wrap_result, error_text,
}
use mas_iam_operator.Prelude.Text.{CaseTable, trim_space, join}
use mas_iam_operator.Prelude.Decimal.{itoa}
use mas_iam_operator.Installer.Components.{
  Quoting, normalize_mas_auth_providers, default_mas_auth_providers,
}
use mas_iam_operator.Installer.Cluster.{IdpCfgSummary}
use mas_iam_operator.Installer.Preflight.{IdpCfgPlan, Finding, warn, fine}

-- `ids[provider]`, with the default for a blank one
provider_id : IdpCfgPlan → String → String
unfolding trim_space
provider_id p provider =
    let id = trim_space (
      if provider == "ldap"
      then p.ldap_provider_id
      else if provider == "oidc"
      then p.oidc_provider_id
      else if provider == "saml"
      then p.saml_provider_id
      else "") in
    if id == "" then "default" else id

names_of : IdpCfgPlan → String → List String → List String
unfolding provider_id
names_of p instance_id [] = []
names_of p instance_id (provider ∷ providers) =
    (instance_id <> ("-" <> (provider <> ("-" <> (provider_id p provider <> "-system")))))
    ∷ names_of p instance_id providers

-- `byName[want]`: of two objects of one name the last one.
unfoldable pub by_name : String → List IdpCfgSummary → Option IdpCfgSummary
by_name want [] = none
by_name want (item ∷ items) = elim (by_name want items) [
  | some found ↦ some found
  | none ↦ (if item.name == want then some item else none)
]

module _ ⦃u : CaseTable⦄ ⦃q : Quoting⦄ where
  unfoldable pub plan_names : IdpCfgPlan → List String
  unfolding names_of trim_space
  plan_names p =
      if trim_space p.instance_id == ""
      then []
      else elim (normalize_mas_auth_providers p.providers) [
        | err e ↦ []
        | ok providers ↦
            names_of p (trim_space p.instance_id)
              (if is_nil providers then default_mas_auth_providers else providers)
      ]

  collision : String → IdpCfgSummary → String
  unfolding trim_space
  collision want item =
      let display = trim_space item.display_name in
      want
      <> (" (displayName "
          <> (q.quote (if display == "" then "<no displayName>" else display) <> ")"))

  -- The loop over the planned names.
  unfoldable pub collisions : List IdpCfgSummary → List String → List String
  unfolding by_name collision
  collisions existing [] = []
  collisions existing (want ∷ planned) =
      let rest = collisions existing planned in
      elim (by_name want existing) [ none ↦ rest | some item ↦ collision want item ∷ rest ]

  report_collisions : String → List String → List String → Finding
  unfolding itoa
  report_collisions namespace planned found =
      if is_nil found
      then fine "mas-idpcfg-overwrite" (
          "none of the "
          <> (itoa (length planned)
              <> (" IDPCfg(s) this install creates already exist in namespace " <> namespace)))
      else warn "mas-idpcfg-overwrite" (
          itoa (length found)
          <> (" existing IDPCfg(s) in namespace "
              <> (namespace
                  <> (" will be OVERWRITTEN in place by this install: "
                      <> (join ", " found
                          <> (". Back them up first: oc get idpcfg -n "
                              <> (namespace
                                  <> (" -o yaml. mas-est install always uses provider id "
                                      <> (q.quote "default"
                                          <> " and has no flag to change it; to keep the existing configs, run the install with --mas-auth-providers limited to the other providers (or without --configure-mas-auth) and then 'mas-est mas-auth apply --ldap-provider-id/--oidc-provider-id/--saml-provider-id <id>' with a different id.")))))))))

  report_listed : String → List String → Result (List IdpCfgSummary) → Finding
  unfolding collisions report_collisions
  report_listed namespace planned (err e) = warn "mas-idpcfg-overwrite" (
      "could not list IDPCfgs in namespace "
      <> (namespace
          <> (": "
              <> (error_text e
                  <> "; cannot check whether this install would overwrite an existing config"))))
  report_listed namespace planned (ok existing) =
      report_collisions namespace planned (collisions existing planned)

  -- No lookup stands for a nil function.
  report_lookup : String → List String → Option (String → Result (List IdpCfgSummary)) → Finding
  unfolding report_listed
  report_lookup namespace planned none =
      warn "mas-idpcfg-overwrite" "skipped: no IDPCfg lookup available"
  report_lookup namespace planned (some list_idp_cfgs) =
      report_listed namespace planned (list_idp_cfgs namespace)

  unfoldable pub check_idp_cfg_overwrite :
      Option (String → Result (List IdpCfgSummary)) → IdpCfgPlan → Finding
  unfolding plan_names report_lookup trim_space
  check_idp_cfg_overwrite lookup plan =
      let namespace = trim_space plan.core_namespace in
      let planned = plan_names plan in
      if namespace == "" || is_nil planned
      then warn "mas-idpcfg-overwrite"
          "skipped: MAS core namespace or instance id could not be resolved"
      else report_lookup namespace planned lookup
