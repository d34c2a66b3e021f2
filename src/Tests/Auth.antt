-- ===== src/Tests/Auth.antt =====
-- The theorems on the configuration of the identity providers, at one installation.
use mas_iam_operator.Prelude.{
  ℕ, suc, ◌+◌, ◌≡◌, refl, inr, true, none, some, [], ◌∷◌, is_some, arith,
}
use mas_iam_operator.Errors.{ok}
use mas_iam_operator.Http.{Http, answered}
use mas_iam_operator.Installer.Environment.{pos}
use mas_iam_operator.Installer.Admin.Client.{AdminJson, Client}
use mas_iam_operator.Installer.Admin.Session.{Session}
use mas_iam_operator.Installer.Admin.Providers.{IdpJson, no_response}
use mas_iam_operator.Installer.Auth.{
  MasAuthApplyOptions, KeycloakMasClients, has_provider, needs_keycloak, provider_key_with_suffix,
  oidc_self_reg_mappings, self_reg_config_yaml, self_reg_data, link_type, linked_key,
}
use mas_iam_operator.Installer.Auth.Linked.{lookup-self_reg_data}
use mas_iam_operator.Installer.Auth.Apply.{Timer}
use mas_iam_operator.Installer.Auth.Pipeline.{Machine, apply_via_admin_api}
use mas_iam_operator.Installer.Auth.Total.{apply_via_admin_api_ends}
use mas_iam_operator.Tests.Fixtures.{quoting}
use mas_iam_operator.Prelude.Dict

abbrev options : MasAuthApplyOptions
options = record {
  namespace = "mas-est";
  release = "est";
  realm = "maximo";
  mas_instance_id = "i";
  mas_core_namespace = "mas-i-core";
  providers = "ldap" ∷ "oidc" ∷ [];
  ldap_provider_id = "default";
  oidc_provider_id = "default";
  saml_provider_id = "default";
  self_reg_workspace_id = "";
}

lookup-self_reg_data_example :
    Dict.lookup (linked_key options (link_type options)) (self_reg_data options)
    ≡ some (self_reg_config_yaml options oidc_self_reg_mappings)
unfolding has_provider needs_keycloak provider_key_with_suffix link_type linked_key
lookup-self_reg_data_example = lookup-self_reg_data options refl (inr refl)

-- MAS grants every request, and no provider is ready. The state is the time.
abbrev granting : Http
granting = record {
  State = ℕ;
  send = λ req n. (answered (record { status_code = 200; status = "200"; body = "t" }), suc n);
  sleep = λ d n. n + d;
  int63n = λ d n. (0, n);
  join_path = λ base parts. ok base;
  check_request = λ method url. ok tt;
}

abbrev json : AdminJson
json = record {
  parse_url = λ raw.
      ok (record { scheme = "https"; host = "api"; hostname = "api"; path = ""; text = raw });
  resolve = λ base path. path;
  path_escape = λ s. s;
  basic_auth = λ name value. name;
  decode_token = λ body. ok body;
  read_api_error =
      λ body. record { status = 0; error_code = pos 0; message = ""; exception_id = "" };
}

abbrev idp : IdpJson
idp = record {
  encode_ldap = λ req. ok "{}";
  encode_oidc = λ req. ok "{}";
  encode_saml = λ req. ok "{}";
  decode_idp = λ body. ok no_response;
  decode_ldap_test = λ body. ok (record { success = true });
  decode_metadata = λ body.
      ok (record { creation_timestamp = ""; deletion_timestamp = ""; idp_metadata_xml = "" });
  form_file = λ field name raw. inr (raw, "multipart/form-data");
}

abbrev admin : Client
admin = record {
  base_url = record { scheme = "https"; host = "api"; hostname = "api"; path = ""; text = "" };
  token_name = "n";
  token_value = "v";
}

abbrev timer : Timer granting
timer = record { now = λ n. n; sleep_ctx = λ d n. (none, n + d); duration_text = λ d. "" }

abbrev machine : Machine granting
machine = record {
  with_input = λ args text n. (ok "", n);
  run_script = λ path args n. (ok "", n);
  encode_config_map = λ manifest. ok "{}";
  getenv = λ name. "";
  file_exists = λ path. true;
  join_file = λ parts. "scripts";
}

abbrev clients : KeycloakMasClients
clients = record {
  base_url = "https://kc";
  oidc_client_id = "mas";
  oidc_client_secret = "s";
  saml_client_id = "";
  saml_metadata = "";
  route_ca_certs = [];
}

abbrev session : Session json granting admin
session = record { cached_jwt = ""; network = 0 }

apply_via_admin_api_ends_example :
    is_some (
      apply_via_admin_api json idp granting admin timer machine options 3 true 9000000000 clients
        (ok "p")
        []
        session)
    ≡ true
apply_via_admin_api_ends_example =
    apply_via_admin_api_ends json idp granting admin timer machine options 2 true 9000000000
      (λ req n. omega arith) (λ d n e. omega arith) (omega arith) clients (ok "p") [] session
