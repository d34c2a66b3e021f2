-- ===== src/Tests/Credentials.antt =====
-- The theorems on the clients, the configuration and the cleanup, at one configuration.
use mas_iam_operator.Prelude.{
  ℕ, suc, String, ◌<>◌, ◌≡◌, refl, true, false, ◌&&◌, some, [], ◌∷◌, ◌==◌, has,
}
use mas_iam_operator.Errors.{ok}
use mas_iam_operator.Prelude.Dict.{Dict}
use mas_iam_operator.Http.{Http, answered}
use mas_iam_operator.Config.Settings.{Settings, MasConfig, default_mas, default_settings}
use mas_iam_operator.Config.Parse.{resolve_profile}
use mas_iam_operator.Config.Validate.{validate}
use mas_iam_operator.Config.Validate.Sound.{has_credentials, modes, validate-eq-none}
use mas_iam_operator.Keycloak.Groups.{nil}
use mas_iam_operator.Keycloak.Client.{KeycloakJson}
use mas_iam_operator.Mas.Client.{fetch_token, Client, MasJson, auth_header, new_client}
use mas_iam_operator.State.Entry.{Entry}
use mas_iam_operator.Bridge.Profile.{ProfileResolver, resolve}
use mas_iam_operator.Bridge.Profile.Agreement.{resolve-eq-resolve_profile}
use mas_iam_operator.Bridge.App.{ensure_mas_token, new_mas_client}
use mas_iam_operator.Bridge.App.Token.{auth_header-refreshed}
use mas_iam_operator.Cleanup.{collect_error_entries, delete_all}
use mas_iam_operator.Cleanup.Kept.{lookup-delete_all_of_ok}
use mas_iam_operator.Prelude.Text.{to_lower, trim_right, is_slash}
use mas_iam_operator.Tests.Fixtures.{ascii, config, entry}
use mas_iam_operator.Prelude.Dict

-- Every request is granted.
abbrev granting : Http
granting = record {
  State = ℕ;
  send = λ req n. (answered (record { status_code = 200; status = "200"; body = "" }), suc n);
  sleep = λ d n. n;
  int63n = λ d n. (0, n);
  join_path = λ base parts. ok base;
  check_request = λ method url. ok tt;
}

abbrev mas_json : MasJson
mas_json = record {
  encode = λ body. ok "";
  decode_id = λ text. ok text;
  decode_resources = λ text. ok [];
  decode_token = λ text. ok "t1";
  basic_auth = λ name value. name;
  parse_request_uri = λ url. ok tt;
  load_cert_pool = λ path. ok tt;
}

abbrev keycloak_json : KeycloakJson
keycloak_json = record {
  decode_users = λ text. ok [];
  decode_groups = λ text. ok nil;
  decode_access_token = λ text. ok "t2";
  encode_form = λ q. "";
}

abbrev mas_config : MasConfig
mas_config = record default_mas {
  base_url = "https://mas";
  profile_id = "acme";
  profile_map = ("staff", "p1") ∷ [];
  api_token_name = "n";
  api_token_value = "v";
}

abbrev settings : Settings
settings = record default_settings {
  keycloak = record config { base_url = "https://kc"; client_id = "i"; client_secret = "s" };
  mas = mas_config;
}

abbrev client : Client
client = record {
  cfg = record mas_config { token = "t1"; auth_type = "jwt" };
  base = "https://mas";
}

auth_header-refreshed_example :
    (token : String) × ((fetch_token granting mas_json "https://mas" "n" "v" 0).0 ≡ ok token)
    × (auth_header mas_json client ≡ "Bearer " <> token)
unfolding ensure_mas_token fetch_token new_mas_client new_client to_lower trim_right is_slash
auth_header-refreshed_example =
    auth_header-refreshed granting mas_json mas_config false 0 client refl refl

resolve-eq-resolve_profile_example :
    let r : ProfileResolver = record {
      default_profile_id = "acme";
      require_label = false;
      mapping = ("staff", "p1") ∷ [];
    } in
    ((resolve r " Staff").0.profile_id, (resolve r " Staff").1)
    ≡ resolve_profile mas_config " Staff"
resolve-eq-resolve_profile_example = resolve-eq-resolve_profile mas_config " Staff"

validate-eq-none_example :
    (("https://kc" == "") ≡ false)
    × (("https://mas" == "") ≡ false)
    × (("acme" == "") ≡ false)
    × (has_credentials settings ≡ true)
    × (has "poll" modes ≡ true)
    × ((("memory" == "filesystem") && ("" == "")) ≡ false)
unfolding validate to_lower
validate-eq-none_example = validate-eq-none (λ url. ok tt) settings refl

abbrev tracked : Dict Entry
tracked = ("k1", entry "m1" "ada") ∷ ("k2", record (entry "m2" "bob") { status = "error" }) ∷ []

lookup-delete_all_of_ok_example :
    Dict.lookup "k1"
      (delete_all granting mas_json client (collect_error_entries tracked) tracked 0).0
    ≡ some (entry "m1" "ada")
unfolding has Dict.keys Dict.lookup
lookup-delete_all_of_ok_example =
    lookup-delete_all_of_ok granting mas_json client tracked 0 "k1" (entry "m1" "ada")
      (refl, (refl, tt)) refl refl
