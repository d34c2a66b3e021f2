-- ===== src/Mas/Client.antt =====
-- The SCIM requests of services/scim-bridge/internal/mas/client.go and `FetchToken` of
-- services/scim-bridge/internal/mas/auth.go. The network and the JSON encoding are parameters.
use mas_iam_operator.Prelude.{
  String, ◌<>◌, ◌||◌, Option, none, some, List, [], ◌∷◌, ◌==◌, nat_beq, if◌then◌else◌, is_nil,
}
use mas_iam_operator.Prelude.Text.{
  trim_space, trim_right, is_slash, strip_suffix, to_lower, CaseTable,
}
use mas_iam_operator.Errors.{
  Error, message, response, Result, ok, err, wrap_result, Exec, pure, lift, ◌>>=◌,
}
use mas_iam_operator.Http.{Request, Response, answered, broken, Http, limit_bytes}
use mas_iam_operator.Config.Settings.{MasConfig}
use mas_iam_operator.Mas.Payload.{UserResource, PatchOperation, MasUser}
use mas_iam_operator.Mas.Api.{MasApi}
use mas_iam_operator.Mas.Retry.{do_with_retry}

pub record Client : Type 0 where
  pub cfg : MasConfig
  pub base : String

-- The `body any` of a request: nil, a user, or the anonymous struct of `PatchUser`.
pub data Body : Type 0 where
  no_body : Body
  user_body : UserResource → Body
  patch_body : List String → List PatchOperation → Body

-- The JSON codec, `Values.Encode`, `SetBasicAuth` and the checks of a new client.
pub record MasJson : Type 0 where
  pub encode : Body → Result String
  pub decode_id : String → Result String
  pub decode_resources : String → Result (List MasUser)
  pub decode_token : String → Result String
  pub basic_auth : String → String → String
  pub parse_request_uri : String → Result (Unit {0})
  pub load_cert_pool : String → Result (Unit {0})

unfoldable pub error_from_response : Response → Error
error_from_response resp = response (record {
  status_code = resp.status_code;
  status = resp.status;
  body = trim_space (limit_bytes 512 resp.body);
})

-- The part of a base URL before `/v1/authenticate`.
unfoldable pub auth_root : String → String
auth_root mas_base =
    let root = trim_right is_slash mas_base in
    elim (strip_suffix "/scim/v2" root) [ some r ↦ r | none ↦ root ]

module _ ⦃u : CaseTable⦄ (json : MasJson) where
  unfoldable pub new_client : MasConfig → Result Client
  new_client cfg =
      if cfg.base_url == ""
      then err (message "mas base URL missing")
      else elim (wrap_result "invalid mas base URL" (json.parse_request_uri cfg.base_url)) [
        | err e ↦ err e
        | ok _ ↦
            let client : Client = record { cfg = cfg; base = trim_right is_slash cfg.base_url } in
            if cfg.ca_file == ""
            then ok client
            else elim (wrap_result "load MAS CA file" (json.load_cert_pool cfg.ca_file)) [
              | err e ↦ err e
              | ok _ ↦ ok client
            ]
      ]

  unfoldable pub auth_header : Client → String
  auth_header c =
      if to_lower c.cfg.auth_type == "api-key"
      then "APIKey " <> c.cfg.token
      else "Bearer " <> c.cfg.token

module _ ⦃u : CaseTable⦄ (http : Http) (json : MasJson) where
  users_endpoint : Client → String → Result String
  users_endpoint c profile_id =
      if profile_id == ""
      then err (message "profile ID required for MAS SCIM call")
      else http.join_path c.base (profile_id ∷ "Users" ∷ [])

  user_endpoint : Client → String → String → Result String
  user_endpoint c profile_id id =
      if profile_id == ""
      then err (message "profile ID required for MAS SCIM call")
      else http.join_path c.base (profile_id ∷ "Users" ∷ id ∷ [])

  encode_body : Body → Result String
  encode_body no_body = ok ""
  encode_body (user_body payload) =
      wrap_result "encode SCIM payload" (json.encode (user_body payload))
  encode_body (patch_body schemas ops) =
      wrap_result "encode SCIM payload" (json.encode (patch_body schemas ops))

  header : Client → Body → List (String × String)
  header c no_body = ("Authorization", auth_header json c) ∷ []
  header c _ =
      ("Content-Type", "application/scim+json") ∷ ("Authorization", auth_header json c) ∷ []

  new_request : Client → String → String → Body → Exec http.State Request
  unfolding encode_body header
  new_request c method endpoint body = do
    text ← lift (encode_body body)
    _ ← lift (http.check_request method endpoint)
    pure (record {
      method = method;
      endpoint = endpoint;
      query = [];
      header = header c body;
      body = text;
    })

  -- A request that changes users: build it, send it, and read its response.
  submit :
      {A : Type 0}
      → Client
      → String
      → Result String
      → Body
      → (Response → Result A)
      → Exec http.State A
  unfolding new_request
  submit c method endpoint body read = do
    url ← lift endpoint
    req ← new_request c method url body
    resp ← do_with_retry http req
    lift (read resp)

  read_created : Response → Result String
  read_created resp =
      if nat_beq resp.status_code 201 || nat_beq resp.status_code 200
      then elim (wrap_result "decode MAS response" (json.decode_id resp.body)) [
        | err e ↦ err e
        | ok id ↦ if id == "" then err (message "MAS response missing id") else ok id
      ]
      else err (error_from_response resp)

  unfoldable pub create_user : Client → String → UserResource → Exec http.State String
  unfolding submit users_endpoint read_created
  create_user c profile_id payload =
      submit c "POST" (users_endpoint c profile_id) (user_body payload) read_created

  read_ok : Response → Result (Unit {0})
  read_ok resp = if nat_beq resp.status_code 200 then ok tt else err (error_from_response resp)

  unfoldable pub update_user : Client → String → String → UserResource → Exec http.State (Unit {0})
  unfolding submit user_endpoint read_ok
  update_user c profile_id mas_id payload =
      submit c "PUT" (user_endpoint c profile_id mas_id) (user_body payload) read_ok

  read_deleted : Response → Result (Unit {0})
  read_deleted resp =
      if nat_beq resp.status_code 404
        || nat_beq resp.status_code 200
        || nat_beq resp.status_code 204
      then ok tt
      else err (error_from_response resp)

  unfoldable pub delete_user : Client → String → String → Exec http.State (Unit {0})
  unfolding submit user_endpoint read_deleted
  delete_user c profile_id mas_id =
      submit c "DELETE" (user_endpoint c profile_id mas_id) no_body read_deleted

  unfoldable pub patch_user :
      Client → String → String → List PatchOperation → Exec http.State (Unit {0})
  unfolding submit user_endpoint read_ok
  patch_user c profile_id mas_id ops =
      if is_nil ops
      then pure tt
      else submit c "PATCH" (user_endpoint c profile_id mas_id)
          (patch_body ("urn:ietf:params:scim:api:messages:2.0:PatchOp" ∷ []) ops) read_ok

  read_resources : Response → Result (List MasUser)
  read_resources resp =
      if nat_beq resp.status_code 200
      then wrap_result "decode MAS search response" (json.decode_resources resp.body)
      else err (error_from_response resp)

  unfoldable pub search_users : Client → String → String → Exec http.State (List MasUser)
  unfolding users_endpoint read_resources
  search_users c profile_id filter = do
    endpoint ← lift (users_endpoint c profile_id)
    _ ← lift (http.check_request "GET" endpoint)
    resp ← do_with_retry http (record {
      method = "GET";
      endpoint = endpoint;
      query = ("filter", filter) ∷ [];
      header = ("Authorization", auth_header json c) ∷ [];
      body = "";
    })
    lift (read_resources resp)

  read_auth : Response → Result String
  read_auth resp =
      if nat_beq resp.status_code 200
      then elim (wrap_result "decode auth response" (json.decode_token resp.body)) [
        | err e ↦ err e
        | ok token ↦ if token == "" then err (message "auth response missing token") else ok token
      ]
      else err (message ("auth request failed: " <> resp.status))

  -- `FetchToken`: one request, with no retry.
  unfoldable pub fetch_token : String → String → String → Exec http.State String
  unfolding read_auth
  fetch_token mas_base username password = do
    let auth_url = auth_root mas_base <> "/v1/authenticate"
    _ ← lift (http.check_request "GET" auth_url)
    λ s.
        let (sent, s') =
          http.send
            (record {
              method = "GET";
              endpoint = auth_url;
              query = [];
              header = ("Authorization", json.basic_auth username password) ∷ [];
              body = "";
            })
            s in
        elim sent [ answered resp ↦ (read_auth resp, s') | broken e ↦ (err (message e.text), s') ]

  -- An `error` result.
  abbrev error_of : Result (Unit {0}) → Option Error
  error_of (ok _) = none
  error_of (err e) = some e

  abbrev only_error : Result (Unit {0}) × http.State → Option Error × http.State
  only_error r = (error_of r.0, r.1)

  -- `*mas.Client` as the `MASClient` of the executor.
  abbrev pub mas_client : MasApi
  mas_client = record {
    Client = Client;
    State = http.State;
    create_user = create_user;
    update_user =
        λ c profile_id mas_id payload s. only_error (update_user c profile_id mas_id payload s);
    patch_user = λ c profile_id mas_id ops s. only_error (patch_user c profile_id mas_id ops s);
    search_users = search_users;
  }
