-- ===== src/Tests/Preflight.antt =====
-- The theorems on the checks before an installation and on MAS's administration interface, at one
-- cluster and one server.
use mas_iam_operator.Prelude.{
  ℕ, suc, String, ◌≡◌, refl, ◌↔◌, inr, true, false, none, some, List, [], ◌∷◌, ◌==◌, if◌then◌else◌,
  is_nil,
}
use mas_iam_operator.Errors.{ok}
use mas_iam_operator.Prelude.Text.{trim_space, to_lower}
use mas_iam_operator.Http.{Http, Request, Response, answered}
use mas_iam_operator.Installer.Environment.{pos}
use mas_iam_operator.Installer.Components.{normalize_mas_auth_providers}
use mas_iam_operator.Installer.Storage.{StorageClass, rank_storage_classes}
use mas_iam_operator.Installer.Cluster.{
  Oc, IdpCfgSummary, check_available, who_am_i, storage_classes, idp_cfgs, routes_by_host,
}
use mas_iam_operator.Installer.Preflight.Run.{add, run}
use mas_iam_operator.Installer.Preflight.Probes.{check_oidc_endpoint, check_api_key, parse_mas_host}
use mas_iam_operator.Installer.Admin.Client.{AdminJson, Client}
use mas_iam_operator.Installer.Admin.Session.{
  Session, do_json, auth_request, token_of, with_token, auth_url,
}
use mas_iam_operator.Installer.Admin.Recovery.{IsServing, do_json_recovers}
use mas_iam_operator.Installer.Preflight.{IdpCfgPlan, Input, status_ok, is_error, has_failures}
use mas_iam_operator.Installer.Preflight.Overwrite.{plan_names, check_idp_cfg_overwrite}
use mas_iam_operator.Installer.Preflight.Overwrite.Warned.{
  any_taken, check_idp_cfg_overwrite_status,
}
use mas_iam_operator.Installer.Preflight.Run.Passed.{run_passed}
use mas_iam_operator.Tests.Fixtures.{ascii, quoting}
use mas_iam_operator.Prelude.Dict
use mas_iam_operator.Prelude.Dict

abbrev plan : IdpCfgPlan
plan = record {
  core_namespace = "mas-i-core";
  instance_id = "i";
  providers = "saml" ∷ [];
  ldap_provider_id = "";
  oidc_provider_id = "";
  saml_provider_id = "";
}

abbrev taken : List IdpCfgSummary
taken = record { name = "i-saml-default-system"; display_name = "" } ∷ []

check_idp_cfg_overwrite_status_example :
    (is_error (check_idp_cfg_overwrite (some λ n. ok taken) plan).status ≡ false)
    × (((check_idp_cfg_overwrite (some λ n. ok taken) plan).status ≡ status_ok)
        ↔ (any_taken taken (plan_names plan) ≡ false))
unfolding trim_space plan_names normalize_mas_auth_providers to_lower Dict.lookup Dict.insert
check_idp_cfg_overwrite_status_example =
    check_idp_cfg_overwrite_status plan (λ n. ok taken) taken refl refl refl

-- A server that grants the token "t" and refuses every other one; the state counts the requests.
abbrev first_value : List (String × String) → String
first_value [] = ""
first_value ((name, value) ∷ rest) = value

abbrev by_token : String → Response
by_token t =
    if t == "t"
    then record { status_code = 200; status = "200"; body = "done" }
    else record { status_code = 401; status = "401"; body = "" }

abbrev reply : Request → Response
reply req =
    if req.endpoint == "/v1/authenticate"
    then record { status_code = 200; status = "200"; body = "t" }
    else by_token (first_value req.header)

abbrev server : Http
server = record {
  State = ℕ;
  send = λ req n. (answered (reply req), suc n);
  sleep = λ d n. n;
  int63n = λ d n. (0, n);
  join_path = λ base parts. ok base;
  check_request = λ method url. ok tt;
}

abbrev json : AdminJson
json = record {
  parse_url = λ raw.
      ok (record {
        scheme = "https";
        host = "api";
        hostname = "api";
        path = "/scim/v2";
        text = raw;
      });
  resolve = λ base path. path;
  path_escape = λ s. s;
  basic_auth = λ name value. name;
  decode_token = λ body. ok body;
  read_api_error =
      λ body. record { status = 0; error_code = pos 0; message = ""; exception_id = "" };
}

abbrev admin : Client
admin = record {
  base_url = record {
    scheme = "https";
    host = "api";
    hostname = "api";
    path = "";
    text = "https://api";
  };
  token_name = "n";
  token_value = "v";
}

serving :
    IsServing json server admin "t" "PUT" "/config/ldap/one" "{}"
      (record { status_code = 200; status = "200"; body = "done" })
      (record { status_code = 401; status = "401"; body = "" })
      (record { status_code = 200; status = "200"; body = "t" })
unfolding auth_request token_of with_token auth_url
serving = record {
  permitted = λ m url. refl;
  grants = λ n. refl;
  granted = refl;
  answers = λ t n. refl;
  refused = refl;
  succeeded = refl;
  content = refl;
}

abbrev stale : Session json server admin
stale = record { cached_jwt = "old"; network = 0 }

do_json_recovers_example :
    ((do_json json server admin "PUT" "/config/ldap/one"
        (some (ok "{}"))
        (some λ body. ok body)
        stale).0
      ≡ inr (some "done"))
    × ((do_json json server admin "PUT" "/config/ldap/one"
          (some (ok "{}"))
          (some λ body. ok body)
          stale).1.cached_jwt
        ≡ "t")
do_json_recovers_example =
    do_json_recovers json server admin "t" "PUT" "/config/ldap/one" "{}"
      (record { status_code = 200; status = "200"; body = "done" })
      (record { status_code = 401; status = "401"; body = "" })
      (record { status_code = 200; status = "200"; body = "t" }) serving (λ body. ok body) "done"
      refl stale

-- Every request is granted.
abbrev granting : Http
granting = record server {
  State = ℕ;
  send = λ req n. (answered (record { status_code = 200; status = "200"; body = "t" }), suc n);
  sleep = λ d n. n;
  int63n = λ d n. (0, n);
  check_request = λ method url. ok tt;
}

abbrev cluster : Oc
cluster = record {
  look_path = none;
  output = λ args. ok "x";
  decode_storage_classes =
      λ text. ok (record { name = "standard"; annotations = []; provisioner = "csi" } ∷ []);
  decode_routes = λ text. ok [];
  decode_idp_cfgs = λ text. ok taken;
}

abbrev input : Input
input = record {
  namespace = "mas-est";
  mas_base_url = "https://api/scim/v2";
  check_oidc_endpoint = true;
  api_token_name = "n";
  api_token_value = "v";
  check_idp_cfg_overwrite = true;
  idp_cfg_plan = plan;
}

run_passed_example :
    (check_available cluster ≡ none)
    × (((who : String × String) × (who_am_i cluster ≡ ok who))
        × (((found : List StorageClass) × ((storage_classes cluster ≡ ok found)
                × (is_nil found ≡ false)))
            × ((trim_space input.mas_base_url == "") ≡ false
                → (host : String) × (parse_mas_host json input.mas_base_url ≡ ok host))))
unfolding has_failures run check_available who_am_i parse_mas_host add storage_classes
    rank_storage_classes Dict.lookup check_idp_cfg_overwrite normalize_mas_auth_providers to_lower
    Dict.insert idp_cfgs check_oidc_endpoint check_api_key routes_by_host
run_passed_example = run_passed json granting cluster input 0 refl
