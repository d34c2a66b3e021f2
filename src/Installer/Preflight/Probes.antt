-- ===== src/Installer/Preflight/Probes.antt =====
-- The direct probes of MAS: `ParseMASHost`, `CheckOIDCEndpoint` and `CheckAPIKey` of
-- tools/mas-iam-installer/internal/preflight/preflight.go.
use mas_iam_operator.Errors.{error_text, message, Result, ok, err, wrap_result}
use mas_iam_operator.Prelude.{String, ◌<>◌, not, ◌||◌, [], ◌∷◌, ◌==◌, nat_beq, if◌then◌else◌}
use mas_iam_operator.Prelude.Text.{trim_space, trim_right, is_slash, contains}
use mas_iam_operator.Prelude.Decimal.{itoa}
use mas_iam_operator.Prelude.Dict.{Dict}
use mas_iam_operator.Http.{Request, Response, answered, broken, Http, limit_bytes}
use mas_iam_operator.Installer.Admin.Client.{AdminJson, strip_scim_suffix, is_success}
use mas_iam_operator.Installer.Preflight.{Finding, warn, fine, failure}

unfoldable pub parse_mas_host : AdminJson → String → Result String
unfolding trim_space contains
parse_mas_host json raw_url =
    if trim_space raw_url == ""
    then err (message "MAS base URL is required (SCIM_BRIDGE_MAS_BASE_URL)")
    else elim (wrap_result "parse MAS base URL" (json.parse_url raw_url)) [
      | err e ↦ err e
      | ok parsed ↦
          if parsed.scheme == "" || parsed.host == ""
          then err (
              message
                "MAS base URL must include scheme and host, for example https://api.<mas-instance>.<domain>/scim/v2")
          else if not (contains parsed.path "/scim/v2")
          then err (message "MAS base URL must include /scim/v2")
          else ok parsed.hostname
    ]

abbrev get_request : String → Dict String → Request
get_request url header = record {
  method = "GET";
  endpoint = url;
  query = [];
  header = header;
  body = "";
}

module _ (json : AdminJson) (http : Http) where
  unfoldable pub oidc_probe_url : String → String
  unfolding strip_scim_suffix
  oidc_probe_url mas_base_url = strip_scim_suffix mas_base_url <> "/config/oidc/default"

  -- The host that the messages name.
  probe_host : String → String
  probe_host probe_url = elim (json.parse_url probe_url) [
    | err e ↦ probe_url
    | ok parsed ↦ if not (parsed.hostname == "") then parsed.hostname else probe_url
  ]

  unfoldable pub judge_oidc : String → Response → Finding
  unfolding probe_host contains itoa limit_bytes
  judge_oidc probe_url resp =
      let host = probe_host probe_url in
      let code = if contains (limit_bytes 8192 resp.body) "AIUCO1022E" then " AIUCO1022E" else "" in
      if nat_beq resp.status_code 404
      then failure "mas-oidc-endpoint" (
          "MAS at "
          <> (host
              <> (" does not expose the OIDC external-IdP API (HTTP 404"
                  <> (code
                      <> "; requires MAS 9.1+). Re-run with --mas-auth-providers ldap,saml or upgrade MAS."))))
      else if nat_beq resp.status_code 401
          || (nat_beq resp.status_code 403 || is_success resp.status_code)
      then fine "mas-oidc-endpoint" ("MAS at " <> (host <> " exposes the OIDC external-IdP API"))
      else warn "mas-oidc-endpoint" (
          "unexpected HTTP "
          <> (itoa resp.status_code
              <> (" from "
                  <> (probe_url <> "; cannot confirm the OIDC external-IdP API is available"))))

  unfoldable pub check_oidc_endpoint : String → http.State → Finding × http.State
  unfolding oidc_probe_url judge_oidc
  check_oidc_endpoint mas_base_url n =
      let probe_url = oidc_probe_url mas_base_url in
      elim (http.check_request "GET" probe_url) [
        | err e ↦ (
          warn "mas-oidc-endpoint"
              ("could not build OIDC endpoint probe for " <> (probe_url <> (": " <> error_text e))),
          n,
        )
        | ok _ ↦
            let (sent, n') =
              http.send (get_request probe_url (("Accept", "application/json") ∷ [])) n in
            elim sent [
              | broken e ↦ (
                warn "mas-oidc-endpoint" (
                    "could not reach "
                    <> (probe_url <> (": " <> (e.text <> "; skipping OIDC endpoint check")))),
                n',
              )
              | answered resp ↦ (judge_oidc probe_url resp, n')
            ]
      ]

  unfoldable pub judge_profiles : String → String → Response → Finding
  unfolding itoa
  judge_profiles profiles_url token_name resp =
      if is_success resp.status_code || nat_beq resp.status_code 404
      then fine "mas-api-key"
          ("MAS API key " <> (token_name <> " authenticated and is authorized for the SCIM API"))
      else if nat_beq resp.status_code 401 || nat_beq resp.status_code 403
      then failure "mas-api-key" (
          "MAS API key "
          <> (token_name
              <> (" authenticated but is not authorized for the SCIM API (HTTP "
                  <> (itoa resp.status_code
                      <> " AIUCO1003E). Recreate the key with userAdmin and systemAdmin permissions."))))
      else warn "mas-api-key" (
          "unexpected HTTP "
          <> (itoa resp.status_code
              <> (" from " <> (profiles_url <> "; cannot confirm SCIM authorization"))))

  unfoldable pub profiles_request : String → String → Request
  profiles_request profiles_url token =
      get_request profiles_url
        (("Authorization", "Bearer " <> token) ∷ ("Accept", "application/json") ∷ [])

  -- The second step, with the token of the first one.
  unfoldable pub check_profiles : String → String → String → http.State → Finding × http.State
  unfolding judge_profiles profiles_request
  check_profiles profiles_url token_name token n = elim (http.check_request "GET" profiles_url) [
    | err e ↦ (
      warn "mas-api-key"
          ("could not build SCIM probe for " <> (profiles_url <> (": " <> error_text e))),
      n,
    )
    | ok _ ↦
        let (sent, n') = http.send (profiles_request profiles_url token) n in
        elim sent [
          | broken e ↦ (
            warn "mas-api-key" (
                "could not reach "
                <> (profiles_url <> (": " <> (e.text <> "; skipping SCIM authorization check")))),
            n',
          )
          | answered resp ↦ (judge_profiles profiles_url token_name resp, n')
        ]
  ]

  unfoldable pub profiles_url_of : String → String
  unfolding trim_space trim_right is_slash
  profiles_url_of mas_base_url = trim_right is_slash (trim_space mas_base_url) <> "/Profiles"

  -- The token of a granted authentication, if the body has one.
  read_token : String → String
  unfolding limit_bytes
  read_token body = elim (json.decode_token (limit_bytes 8192 body)) [
    | err e ↦ ""
    | ok token ↦ token
  ]

  judge_authenticate : String → String → String → Response → http.State → Finding × http.State
  unfolding itoa read_token check_profiles profiles_url_of
  judge_authenticate mas_base_url auth_url token_name resp n =
      let token = read_token resp.body in
      let checked = check_profiles (profiles_url_of mas_base_url) token_name token n in
      if not (nat_beq resp.status_code 200)
      then (
        failure "mas-api-key" (
            "MAS API key "
            <> (token_name
                <> (" failed to authenticate (HTTP "
                    <> (itoa resp.status_code
                        <> "). Check SCIM_BRIDGE_MAS_API_TOKEN_NAME / SCIM_BRIDGE_MAS_API_TOKEN_VALUE.")))),
        n,
      )
      else if token == ""
      then (
        warn "mas-api-key" (
            "authenticate response from "
            <> (auth_url <> " contained no token; cannot verify SCIM authorization")),
        n,
      )
      else checked

  unfoldable pub check_api_key : String → String → String → http.State → Finding × http.State
  unfolding strip_scim_suffix judge_authenticate
  check_api_key mas_base_url token_name token_value n =
      let auth_url = strip_scim_suffix mas_base_url <> "/v1/authenticate" in
      elim (http.check_request "GET" auth_url) [
        | err e ↦ (
          warn "mas-api-key"
              ("could not build authenticate request for " <> (auth_url <> (": " <> error_text e))),
          n,
        )
        | ok _ ↦
            let (sent, n') =
              http.send
                (get_request auth_url (
                  ("Authorization", json.basic_auth token_name token_value)
                  ∷ ("Accept", "application/json")
                  ∷ []))
                n in
            elim sent [
              | broken e ↦ (
                warn "mas-api-key" (
                    "could not reach "
                    <> (auth_url <> (": " <> (e.text <> "; skipping API key check")))),
                n',
              )
              | answered resp ↦ judge_authenticate mas_base_url auth_url token_name resp n'
            ]
      ]
