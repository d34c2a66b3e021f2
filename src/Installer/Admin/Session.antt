-- ===== src/Installer/Admin/Session.antt =====
-- The requests of tools/mas-iam-installer/internal/masadmin/client.go and their token.
use mas_iam_operator.Prelude.{
  ℕ, String, ◌<>◌, inl, inr, not, ◌&&◌, Option, none, some, List, [], ◌∷◌, ◌==◌, nat_beq,
  if◌then◌else◌,
}
use mas_iam_operator.Errors.{message, Result, ok, err}
use mas_iam_operator.Prelude.Text.{trim_space}
use mas_iam_operator.Prelude.Decimal.{itoa}
use mas_iam_operator.Http.{Request, Response, answered, broken, Http}
use mas_iam_operator.Installer.Admin.Client.{AdminJson, Client, is_success, decode_api_error}
use mas_iam_operator.Installer.Admin.Types.{other, wrapping, Fallible}
use mas_iam_operator.Prelude.Dict.{Dict}

-- `out` of a call: none for nil, and otherwise how a body is decoded into it. The value of a call is
-- none when `out` is left as it was.
abbrev pub Out {ℓ} : Type ℓ → Type ℓ
Out A = Option (String → Result A)

module _ (json : AdminJson) (http : Http) (c : Client) where
  -- The cached token, and the network. `jwtExpires` is the zero time whenever it is read.
  pub record Session : Type 0 where
    pub cached_jwt : String
    pub network : http.State

  abbrev pub Call {ℓ} : Type ℓ → Type ℓ
  Call A = Session → Fallible A × Session

  unfoldable pub auth_url : String
  auth_url = json.resolve c.base_url "/v1/authenticate"

  unfoldable pub auth_request : Request
  unfolding auth_url
  auth_request = record {
    method = "GET";
    endpoint = auth_url;
    query = [];
    header =
        ("Authorization", json.basic_auth c.token_name c.token_value)
        ∷ ("Accept", "application/json")
        ∷ [];
    body = "";
  }

  about_auth : String
  unfolding auth_url
  about_auth = "masadmin: authenticate against " <> auth_url

  -- The token in the answer.
  unfoldable pub token_of : Response → Fallible String
  unfolding about_auth auth_url trim_space itoa
  token_of resp =
      if not (is_success resp.status_code)
      then inl (
          other (
            message (
              about_auth
              <> (": HTTP " <> (itoa resp.status_code <> (": " <> trim_space resp.body))))))
      else elim (json.decode_token resp.body) [
        | err e ↦ inl (wrapping "masadmin: decode authenticate response" (other e))
        | ok token ↦
            if token == ""
            then inl (
                other (
                  message (
                    "masadmin: authenticate response from "
                    <> (auth_url <> " contained no token"))))
            else inr token
      ]

  unfoldable pub cache_token : Fallible String → http.State → Session → Fallible String × Session
  cache_token (inl e) network s = (inl e, record s { network = network })
  cache_token (inr token) network s = (inr token, record { cached_jwt = token; network = network })

  unfoldable pub mint : Call String
  unfolding auth_request token_of cache_token about_auth auth_url
  mint s = elim (http.check_request "GET" auth_url) [
    | err e ↦ (inl (other e), s)
    | ok _ ↦
        let (sent, network) = http.send auth_request s.network in
        elim sent [
          | broken e ↦
              (inl (wrapping about_auth (other (message e.text))), record s { network = network })
          | answered resp ↦ cache_token (token_of resp) network s
        ]
  ]

  unfoldable pub authenticate : Call String
  unfolding mint
  authenticate s =
      let minted = mint s in if not (s.cached_jwt == "") then (inr s.cached_jwt, s) else minted

  unfoldable pub reset_token : Session → Session
  reset_token s = record s { cached_jwt = "" }

  -- `err` in place of the value that a call would go on with.
  abbrev pub and_then {ℓ κ} :
      {A : Type ℓ} {B : Type κ} → Fallible A × Session → (A → Call B) → Fallible B × Session
  and_then (inl e, s) f = (inl e, s)
  and_then (inr a, s) f = f a s

  unfoldable pub with_token : String → String → String → Dict String → String → Request
  with_token method path body header token = record {
    method = method;
    endpoint = json.resolve c.base_url path;
    query = [];
    header = ("x-access-token", token) ∷ header;
    body = body;
  }

  -- `newRequest`, with the headers that its callers add.
  unfoldable pub new_request : String → String → String → Dict String → Call Request
  unfolding authenticate with_token
  new_request method path body header s =
      elim (http.check_request method (json.resolve c.base_url path)) [
        | err e ↦ (inl (other e), s)
        | ok _ ↦
            and_then (authenticate s)
              λ token s'. (inr (with_token method path body header token), s')
      ]

  abbrev about : Request → String → String
  about req path = req.method <> (" " <> path)

  -- `json.Marshal` of the body, if there is one, and the headers of the request.
  unfoldable pub json_request : String → String → Option (Result String) → Call Request
  unfolding new_request
  json_request method path none s =
      new_request method path "" (("Accept", "application/json") ∷ []) s
  json_request method path (some (err e)) s = (inl (other e), s)
  json_request method path (some (ok raw)) s =
      new_request method path raw
        (("Content-Type", "application/json") ∷ ("Accept", "application/json") ∷ []) s

  module _ {ℓ} {A : Type ℓ} where
    -- What an answer that is not retried means.
    unfoldable pub settle : Request → String → Out A → Response → Fallible (Option A)
    unfolding decode_api_error
    settle req path out resp =
        if not (is_success resp.status_code)
        then inl (decode_api_error json req.method path resp.status_code resp.body)
        else elim out [
          | none ↦ inr none
          | some decode ↦ if resp.body == "" then inr none else elim (decode resp.body) [
            | err e ↦
                inl (wrapping ("masadmin: decode " <> (about req path <> " response")) (other e))
            | ok a ↦ inr (some a)
          ]
        ]

    -- A round of the loop after its request is built. The call `again` is the rest of the loop.
    unfoldable pub round : ℕ → String → Out A → Call (Option A) → Request → Call (Option A)
    unfolding settle reset_token
    round attempt path out again req s =
        let (sent, network) = http.send req s.network in
        let s' : Session = record s { network = network } in
        elim sent [
          | broken e ↦
              (inl (wrapping ("masadmin: " <> about req path) (other (message e.text))), s')
          | answered resp ↦
              if nat_beq resp.status_code 401 && nat_beq attempt 0
              then again (reset_token s')
              else (settle req path out resp, s')
        ]

    -- The loop, over the numbers of the attempts.
    unfoldable pub attempts : List ℕ → Call Request → String → Out A → Call (Option A)
    unfolding round
    attempts [] build path out s = (inl (other (message "masadmin: exhausted retries")), s)
    attempts (attempt ∷ rest) build path out s =
        and_then (build s) (round attempt path out (attempts rest build path out))

    unfoldable pub do_with_retry : Call Request → String → Out A → Call (Option A)
    unfolding attempts
    do_with_retry = attempts (0 ∷ 1 ∷ [])

    unfoldable pub do_json : String → String → Option (Result String) → Out A → Call (Option A)
    unfolding do_with_retry json_request
    do_json method path body out = do_with_retry (json_request method path body) path out

    unfoldable pub do_multipart : String → String → String → String → Out A → Call (Option A)
    unfolding do_with_retry new_request
    do_multipart method path body content_type out =
        do_with_retry
          (new_request method path body
            (("Content-Type", content_type) ∷ ("Accept", "application/json") ∷ []))
          path out
