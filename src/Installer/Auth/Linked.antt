-- ===== src/Installer/Auth/Linked.antt =====
-- The keys of tools/mas-iam-installer/internal/app/mas_auth_api.go that MAS looks up.
use mas_iam_operator.Prelude.{
  String, ◌≡◌, refl, ◌⊎◌, inl, inr, true, false, some, [], ◌==◌, arith, ap, eq_refl, if◌then◌else◌,
}
use mas_iam_operator.Prelude.Dict.{Dict, lookup-insert}
use mas_iam_operator.Installer.Auth.{
  MasAuthApplyOptions, provider_key_with_suffix, oidc_self_reg_mappings, ldap_self_reg_mappings,
  has_provider, needs_keycloak, self_reg_config_yaml, add_self_reg, self_reg_data, link_type,
  linked_key,
}
use mas_iam_operator.Prelude.Dict

module _ (o : MasAuthApplyOptions) where
  lookup-add_self_reg :
      (j kind id mappings : String) (m : Dict String)
      → Dict.lookup j (add_self_reg o kind id mappings m) ≡ (
          if has_provider o kind
          then (if provider_key_with_suffix id kind == j
              then some (self_reg_config_yaml o mappings)
              else Dict.lookup j m)
          else Dict.lookup j m)
  unfolding add_self_reg
  lookup-add_self_reg j kind id mappings m =
      let e =
        lookup-insert j (provider_key_with_suffix id kind) (self_reg_config_yaml o mappings) m in
      ground arith

  self_reg_data-eq :
      self_reg_data o
      ≡ add_self_reg o "ldap" o.ldap_provider_id ldap_self_reg_mappings (
          add_self_reg o "saml" o.saml_provider_id oidc_self_reg_mappings
            (add_self_reg o "oidc" o.oidc_provider_id oidc_self_reg_mappings []))
  unfolding self_reg_data
  self_reg_data-eq = refl

  link_type_oidc : has_provider o "oidc" ≡ true → link_type o ≡ "oidc"
  unfolding link_type
  link_type_oidc e = ground arith

  link_type_saml :
      has_provider o "oidc" ≡ false → has_provider o "saml" ≡ true → link_type o ≡ "saml"
  unfolding link_type
  link_type_saml e h = ground arith

  linked_key_oidc :
      has_provider o "oidc" ≡ true
      → linked_key o (link_type o) ≡ provider_key_with_suffix o.oidc_provider_id "oidc"
  unfolding linked_key
  linked_key_oidc e = ap (linked_key o) (link_type_oidc e)

  linked_key_saml :
      has_provider o "oidc" ≡ false
      → has_provider o "saml" ≡ true
      → linked_key o (link_type o) ≡ provider_key_with_suffix o.saml_provider_id "saml"
  unfolding linked_key
  linked_key_saml e h = ap (linked_key o) (link_type_saml e h)

  needs_keycloak-cases :
      needs_keycloak o ≡ true
      → (has_provider o "oidc" ≡ true)
        ⊎ ((has_provider o "oidc" ≡ false) × (has_provider o "saml" ≡ true))
  unfolding needs_keycloak
  needs_keycloak-cases e = ground arith

  -- If a provider of Keycloak is configured and the key of the LDAP provider, when that one is
  -- configured too, is not the key that users are linked to, then the entry of that key is the one
  -- for the claims of OpenID Connect.
  pub lookup-self_reg_data :
      needs_keycloak o ≡ true
      → (has_provider o "ldap" ≡ false)
        ⊎ ((provider_key_with_suffix o.ldap_provider_id "ldap" == linked_key o (link_type o))
            ≡ false)
      → Dict.lookup (linked_key o (link_type o)) (self_reg_data o)
        ≡ some (self_reg_config_yaml o oidc_self_reg_mappings)
  lookup-self_reg_data needs apart =
      let k = linked_key o (link_type o) in
      let e = lookup-add_self_reg k in
      let m = add_self_reg o "oidc" o.oidc_provider_id oidc_self_reg_mappings [] in
      let n = add_self_reg o "saml" o.saml_provider_id oidc_self_reg_mappings m in
      let oidc = e "oidc" o.oidc_provider_id oidc_self_reg_mappings [] in
      let saml = e "saml" o.saml_provider_id oidc_self_reg_mappings m in
      let ldap = e "ldap" o.ldap_provider_id ldap_self_reg_mappings n in
      let same = eq_refl k in
      elim (needs_keycloak-cases needs) [
        | inl h ↦ ground (arith, self_reg_data-eq, oidc, saml, ldap, linked_key_oidc h, same)
        | inr (h, g) ↦ ground (arith, self_reg_data-eq, oidc, saml, ldap, linked_key_saml h g, same)
      ]
