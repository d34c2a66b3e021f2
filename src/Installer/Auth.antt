-- ===== src/Installer/Auth.antt =====
-- The configuration of the identity providers of MAS:
-- tools/mas-iam-installer/internal/app/mas_auth_api.go.
pub mod Certificates
pub mod Apply
pub mod Pipeline
pub mod Memory
pub mod Linked
pub mod Total
use mas_iam_operator.Prelude.{
  ℕ, String, ◌<>◌, Bool, true, false, ◌||◌, Option, none, some, List, [], ◌∷◌, ◌==◌, if◌then◌else◌,
  has, is_nil,
}
use mas_iam_operator.Prelude.Text.{trim_space, contains, is_empty}
use mas_iam_operator.Prelude.Dict.{Dict}
use mas_iam_operator.Installer.Admin.Types.{
  Certificate, OidcConfigRequest, SamlSpConfigRequest, LdapConfigRequest, IdpCondition,
  IdpConfigResponse, AdminError, admin_error_text, is_not_found,
}
use mas_iam_operator.Prelude.Dict

-- The fields of `masAuthApplyOptions` that this path reads, less those of the client and the wait.
pub record MasAuthApplyOptions : Type 0 where
  pub namespace : String
  pub release : String
  pub realm : String
  pub mas_instance_id : String
  pub mas_core_namespace : String
  pub providers : List String
  pub ldap_provider_id : String
  pub oidc_provider_id : String
  pub saml_provider_id : String
  pub self_reg_workspace_id : String

pub record KeycloakMasClients : Type 0 where
  pub base_url : String
  pub oidc_client_id : String
  pub oidc_client_secret : String
  pub saml_client_id : String
  pub saml_metadata : String
  pub route_ca_certs : List Certificate

unfoldable pub provider_needs_type_suffix : String → Bool
unfolding trim_space
provider_needs_type_suffix idp_id = trim_space idp_id == "default"

unfoldable pub provider_key_with_suffix : String → String → String
unfolding provider_needs_type_suffix
provider_key_with_suffix idp_id provider_type =
    if provider_needs_type_suffix idp_id then idp_id <> ("-" <> provider_type) else idp_id

abbrev pub oidc_self_reg_mappings : String
oidc_self_reg_mappings =
    "mappings:\n  id: preferred_username\n  email: email\n  displayName: name\n"
    <> "  givenName: given_name\n  familyName: family_name\n  title: title"

abbrev pub ldap_self_reg_mappings : String
ldap_self_reg_mappings =
    "mappings:\n  id: uid\n  email: mail\n  displayName: cn\n  givenName: givenName\n"
    <> "  familyName: sn\n  title: title"

-- Go's map as a Kubernetes manifest: the kind, the name, the namespace, the labels and the data.
pub record ConfigMap : Type 0 where
  pub name : String
  pub namespace : String
  pub labels : Dict String
  pub data_map : Dict String

module _ (o : MasAuthApplyOptions) where
  unfoldable pub has_provider : String → Bool
  unfolding has
  has_provider provider = has provider o.providers

  unfoldable pub needs_keycloak : Bool
  unfolding has_provider
  needs_keycloak = has_provider "oidc" || has_provider "saml"

  unfoldable pub self_reg_config_yaml : String → String
  self_reg_config_yaml mappings =
      let workspace_id =
        if o.self_reg_workspace_id == "" then "workspace" else o.self_reg_workspace_id in
      "enabled: true\nautoApproval: true\nappEntitlement: PREMIUM\nworkspaces:\n  - id: "
      <> (workspace_id <> ("\n    applications:\n      - manage\n" <> (mappings <> "\n")))

  -- `if o.hasProvider(kind) { data[key] = … }`
  unfoldable pub add_self_reg : String → String → String → Dict String → Dict String
  unfolding has_provider provider_key_with_suffix self_reg_config_yaml
  add_self_reg kind id mappings data_map =
      if has_provider kind
      then Dict.insert (provider_key_with_suffix id kind) (self_reg_config_yaml mappings) data_map
      else data_map

  unfoldable pub self_reg_data : Dict String
  unfolding add_self_reg
  self_reg_data = add_self_reg "ldap" o.ldap_provider_id ldap_self_reg_mappings (
      add_self_reg "saml" o.saml_provider_id oidc_self_reg_mappings
        (add_self_reg "oidc" o.oidc_provider_id oidc_self_reg_mappings []))

  -- What is applied to the cluster; none when there is nothing to write.
  unfoldable pub self_reg_config_map : Option ConfigMap
  unfolding self_reg_data
  self_reg_config_map =
      if is_nil self_reg_data
      then none
      else some (record {
        name = o.mas_instance_id <> "-selfreg";
        namespace = o.mas_core_namespace;
        labels =
            ("app.kubernetes.io/managed-by", "mas-est-installer")
            ∷ ("mas.ibm.com/instanceId", o.mas_instance_id)
            ∷ [];
        data_map = self_reg_data;
      })

  -- The type of the identities that are linked to the users of the bridge, "" for no link.
  unfoldable pub link_type : String
  unfolding has_provider
  link_type = if has_provider "oidc" then "oidc" else if has_provider "saml" then "saml" else ""

  unfoldable pub linked_key : String → String
  unfolding provider_key_with_suffix
  linked_key provider_type =
      provider_key_with_suffix
        (if provider_type == "saml" then o.saml_provider_id else o.oidc_provider_id) provider_type

  unfoldable pub link_scim_users_args : String → List String
  unfolding linked_key
  link_scim_users_args provider_type =
      "--instance"
      ∷ o.mas_instance_id
      ∷ "--idp"
      ∷ linked_key provider_type
      ∷ "--idp-type"
      ∷ provider_type
      ∷ []

  -- The request, with the password and the certificates that the cluster's secrets hold.
  unfoldable pub build_ldap_request : String → List Certificate → LdapConfigRequest
  build_ldap_request bind_password certificates = record {
    display_name = "MAS EST LDAP";
    url = "ldaps://" <> (o.release <> ("-openldap." <> (o.namespace <> ".svc.cluster.local:636")));
    base_dn = "dc=demo,dc=local";
    bind_dn = "cn=admin,dc=demo,dc=local";
    bind_password = bind_password;
    user_id_map = "uid";
    certificates = certificates;
  }

  realm_url : KeycloakMasClients → String
  realm_url kc = kc.base_url <> ("/realms/" <> o.realm)

  unfoldable pub build_oidc_request : KeycloakMasClients → OidcConfigRequest
  unfolding realm_url
  build_oidc_request kc = record {
    display_name = "MAS EST OIDC";
    client_id = kc.oidc_client_id;
    client_secret = kc.oidc_client_secret;
    discovery_endpoint_url = realm_url kc <> "/.well-known/openid-configuration";
    issuer_identifier = realm_url kc;
    authorization_endpoint_url = realm_url kc <> "/protocol/openid-connect/auth";
    token_endpoint_url = realm_url kc <> "/protocol/openid-connect/token";
    jwk_endpoint_url = realm_url kc <> "/protocol/openid-connect/certs";
    token_endpoint_auth_method = "basic";
    token_endpoint_auth_signing_algorithm = "RS256";
    user_identifier = "preferred_username";
    signature_algorithm = "RS256";
    certificates = kc.route_ca_certs;
  }

  unfoldable pub build_saml_sp_request : SamlSpConfigRequest
  build_saml_sp_request = record {
    display_name = "MAS EST SAML";
    issuer = o.saml_provider_id;
    service_provider_name = "mas-est-saml-sp";
    name_id_format = "email";
    sp_initiated_logout = some true;
  }

-- On an error that is not nil.
unfoldable pub is_oidc_admin_api_missing : AdminError → Bool
unfolding is_not_found admin_error_text contains
is_oidc_admin_api_missing e = is_not_found e || contains (admin_error_text e) "AIUCO1022E"

condition_texts : List IdpCondition → String
condition_texts [] = ""
condition_texts (c ∷ cs) =
    " "
    <> (c.condition_type
        <> ("=" <> (c.status <> ("(" <> (c.reason <> (")" <> condition_texts cs))))))

unfoldable pub condition_summary : Option IdpConfigResponse → String
unfolding condition_texts
condition_summary none = "no conditions reported yet"
condition_summary (some r) =
    if is_nil r.conditions
    then "no conditions reported yet"
    else "last conditions:" <> condition_texts r.conditions
