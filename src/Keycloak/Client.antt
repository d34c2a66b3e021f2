-- ===== src/Keycloak/Client.antt =====
-- The requests of services/scim-bridge/internal/keycloak/client.go. The network and the JSON
-- decoders are parameters.
pub mod Fallback
use mas_iam_operator.Prelude.{
  ℕ, zero, suc, String, ◌<>◌, ◌&&◌, List, [], ◌∷◌, ◌==◌, ltb, nat_beq, if◌then◌else◌, length,
}
use mas_iam_operator.Prelude.Text.{trim_space, contains}
use mas_iam_operator.Prelude.Decimal.{itoa}
use mas_iam_operator.Prelude.Dict.{Dict}
use mas_iam_operator.Errors.{message, Result, ok, err, wrap_result, Exec, fail, lift, ◌>>=◌}
use mas_iam_operator.Http.{Request, Response, answered, broken, Http, limit_bytes}
use mas_iam_operator.Config.Settings.{KeycloakConfig}
use mas_iam_operator.Keycloak.Users.{User, UserPayload, map_users}
use mas_iam_operator.Keycloak.Groups.{Group, GroupPayloads, flatten_groups}

-- The JSON decoders of the four responses, and `url.Values.Encode`.
pub record KeycloakJson : Type 0 where
  pub decode_users : String → Result (List UserPayload)
  pub decode_groups : String → Result GroupPayloads
  pub decode_access_token : String → Result String
  pub encode_form : Dict String → String

pub record Client : Type 0 where
  pub cfg : KeycloakConfig
  pub base : String

pub record ListUsersParams : Type 0 where
  pub first : ℕ
  pub max : ℕ

-- `if n > 0 { q.Set(key, strconv.Itoa(n)) }`
positive : String → ℕ → Dict String → Dict String
positive key n q = if ltb 0 n then (key, itoa n) ∷ q else q

page_query : ℕ → ℕ → Dict String
unfolding positive
page_query first max = positive "first" first (positive "max" max [])

-- The text of an error response: at most 512 bytes of its body, trimmed.
unfoldable pub body_text : Response → String
body_text resp = trim_space (limit_bytes 512 resp.body)

module _ (http : Http) (json : KeycloakJson) where
  -- `http.NewRequestWithContext` and `c.http.Do`
  exchange : Request → Exec http.State Response
  exchange req = do
    _ ← lift (http.check_request req.method req.endpoint)
    λ s.
        let (sent, s') = http.send req s in
        elim sent [ answered resp ↦ (ok resp, s') | broken e ↦ (err (message e.text), s') ]

  form : Client → Dict String
  form c =
      ("client_id", c.cfg.client_id)
      ∷ ("client_secret", c.cfg.client_secret)
      ∷ ("grant_type", "client_credentials")
      ∷ []

  read_token : Response → Result String
  read_token resp =
      if nat_beq resp.status_code 200
      then elim (wrap_result "decode token response" (json.decode_access_token resp.body)) [
        | err e ↦ err e
        | ok token ↦
            if token == "" then err (message "token response missing access_token") else ok token
      ]
      else err
          (message ("keycloak token request failed: " <> (resp.status <> (": " <> body_text resp))))

  unfoldable pub client_credentials_token : Client → Exec http.State String
  unfolding exchange form read_token
  client_credentials_token c = do
    endpoint ← lift (
        http.join_path c.base
          ("realms" ∷ c.cfg.realm ∷ "protocol" ∷ "openid-connect" ∷ "token" ∷ []))
    resp ← exchange (record {
      method = "POST";
      endpoint = endpoint;
      query = [];
      header = ("Content-Type", "application/x-www-form-urlencoded") ∷ [];
      body = json.encode_form (form c);
    })
    lift (read_token resp)

  -- A GET below /admin/realms/<realm> with the bearer token.
  admin_get : Client → List String → Dict String → Exec http.State Response
  unfolding client_credentials_token exchange
  admin_get c path query = do
    token ← client_credentials_token c
    endpoint ← lift (http.join_path c.base ("admin" ∷ "realms" ∷ c.cfg.realm ∷ path))
    exchange (record {
      method = "GET";
      endpoint = endpoint;
      query = query;
      header = ("Authorization", "Bearer " <> token) ∷ [];
      body = "";
    })

  -- The response of `ListUsers`; `fallback` is the call with one user to a page.
  read_users : Client → ℕ → Exec http.State (List User) → Response → Exec http.State (List User)
  read_users c max fallback resp =
      if nat_beq resp.status_code 200
      then lift (elim (wrap_result "decode users" (json.decode_users resp.body)) [
        | err e ↦ err e
        | ok payload ↦ ok (map_users c.cfg payload)
      ])
      else if nat_beq resp.status_code 400
          && ltb 1 max
          && contains (body_text resp) "Cannot parse the JSON"
      then fallback
      else fail (message ("keycloak list users: " <> (resp.status <> (": " <> body_text resp))))

  -- The call of itself that the code makes is at `Max` 1, where it makes no other: fuel 2 is enough.
  unfoldable pub list_users_fuel : ℕ → Client → ListUsersParams → Exec http.State (List User)
  unfolding admin_get read_users page_query
  list_users_fuel zero c params = fail (message "out of fuel")
  list_users_fuel (suc fuel) c params =
      let fallback = list_users_fuel fuel c (record params { max = 1 }) in
      do
        resp ← admin_get c ("users" ∷ []) (page_query params.first params.max)
        read_users c params.max fallback resp

  unfoldable pub list_users : Client → ListUsersParams → Exec http.State (List User)
  unfolding list_users_fuel
  list_users = list_users_fuel 2

  search_query : String → Dict String
  search_query search = if search == "" then [] else ("search", search) ∷ []

  read_groups : Response → Result (List Group)
  read_groups resp =
      if nat_beq resp.status_code 200
      then elim (wrap_result "decode groups" (json.decode_groups resp.body)) [
        | err e ↦ err e
        | ok payload ↦ ok (flatten_groups payload [])
      ]
      else err (message ("keycloak list groups: " <> (resp.status <> (": " <> body_text resp))))

  unfoldable pub list_groups : Client → String → Exec http.State (List Group)
  unfolding admin_get search_query read_groups
  list_groups c search = do
    resp ← admin_get c ("groups" ∷ []) (search_query search)
    lift (read_groups resp)

  -- The users of a page, and the size of the page before federated users are left out.
  read_members : Client → Response → Result (List User × ℕ)
  read_members c resp =
      if nat_beq resp.status_code 200
      then elim (wrap_result "decode group members" (json.decode_users resp.body)) [
        | err e ↦ err e
        | ok payload ↦ ok (map_users c.cfg payload, length payload)
      ]
      else err
          (message ("keycloak list group members: " <> (resp.status <> (": " <> body_text resp))))

  unfoldable pub list_group_members : Client → String → ℕ → ℕ → Exec http.State (List User × ℕ)
  unfolding admin_get page_query read_members
  list_group_members c group_id first max = do
    resp ← admin_get c ("groups" ∷ group_id ∷ "members" ∷ []) (page_query first max)
    lift (read_members c resp)
