-- ===== src/Bridge/App/Token.antt =====
-- The header that a fetched token is sent with: `ensureMASToken` in
-- services/scim-bridge/internal/bridge/app.go and `authHeader` in
-- services/scim-bridge/internal/mas/client.go.
use mas_iam_operator.Prelude.{
  String, ◌<>◌, ◌≡◌, refl, ◌∙◌, ap, inl, inr, Bool, true, false, ◌||◌, none, arith, ◌==◌,
  Bool-cases,
}
use mas_iam_operator.Errors.{ok, Result-cases}
use mas_iam_operator.Prelude.Text.{CaseTable, to_lower}
use mas_iam_operator.Config.Settings.{MasConfig}
use mas_iam_operator.Http.{Http}
use mas_iam_operator.Mas.Client.{Client, MasJson, auth_header, new_client, fetch_token}
use mas_iam_operator.Bridge.App.{
  set_token, ensure_mas_token, obtain_token, new_mas_client, can_refresh_mas_token,
}

lower_jwt : ⦃c : CaseTable⦄ → (to_lower "jwt" == "api-key") ≡ false
unfolding to_lower
lower_jwt = refl

module _ ⦃c : CaseTable⦄ (http : Http) (json : MasJson) where
  -- The kind of the credentials is not `api-key`.
  set_token-api_key :
      (cfg : MasConfig) (token : String)
      → (to_lower (set_token http json cfg token).auth_type == "api-key") ≡ false
  unfolding set_token
  set_token-api_key cfg token =
      elim (Bool-cases ((cfg.auth_type == "") || (to_lower cfg.auth_type == "api-key"))) [
        | inl e ↦ rw e lower_jwt
        | inr e ↦ rw e (ground (arith, e))
      ]

  ensure_mas_token-api_key :
      (cfg : MasConfig) (s : http.State)
      → (ensure_mas_token http json true cfg s).0.0 ≡ none
      → (to_lower (ensure_mas_token http json true cfg s).0.1.auth_type == "api-key") ≡ false
  unfolding ensure_mas_token obtain_token
  ensure_mas_token-api_key cfg s h = elim (Bool-cases (can_refresh_mas_token cfg)) [
    | inr e ↦ absurd (ground (arith, e, h))
    | inl e ↦
        elim (Result-cases
          (fetch_token http json cfg.base_url cfg.api_token_name cfg.api_token_value s).0) [
            | inr (x, q) ↦ absurd (ground (arith, e, q, h))
            | inl (token, q) ↦ rw e (rw (q, obtain_token) (set_token-api_key cfg token))
          ]
  ]

  new_client-cfg :
      (cfg : MasConfig) (client : Client) → new_client json cfg ≡ ok client → client.cfg ≡ cfg
  unfolding new_client
  new_client-cfg cfg client h = ground (arith, h)

  set_token-token :
      (cfg : MasConfig) (token : String) → (set_token http json cfg token).token ≡ token
  unfolding set_token
  set_token-token cfg token = ground arith

  -- A refresh that ends with no error has fetched a token, and stores it.
  ensure_mas_token-fetched :
      (cfg : MasConfig) (s : http.State)
      → (ensure_mas_token http json true cfg s).0.0 ≡ none
      → (token : String) × ((fetch_token http json cfg.base_url cfg.api_token_name
            cfg.api_token_value s).0
          ≡ ok token)
        × ((ensure_mas_token http json true cfg s).0.1.token ≡ token)
  unfolding ensure_mas_token obtain_token
  ensure_mas_token-fetched cfg s h = elim (Bool-cases (can_refresh_mas_token cfg)) [
    | inr e ↦ absurd (ground (arith, e, h))
    | inl e ↦
        elim (Result-cases
          (fetch_token http json cfg.base_url cfg.api_token_name cfg.api_token_value s).0) [
            | inr (x, q) ↦ absurd (ground (arith, e, q, h))
            | inl (token, q) ↦ (token, q, rw e (rw (q, obtain_token) (set_token-token cfg token)))
          ]
  ]

  -- A refresh of the token that ends with no error has fetched a token, and a client that is built
  -- from the configuration after it sends that token as a bearer token, whatever kind of
  -- credentials was configured before.
  pub auth_header-refreshed :
      (cfg : MasConfig) (payload_logging : Bool) (s : http.State) (client : Client)
      → (ensure_mas_token http json true cfg s).0.0 ≡ none
      → new_mas_client http json (ensure_mas_token http json true cfg s).0.1 payload_logging
        ≡ ok client
      → (token : String) × ((fetch_token http json cfg.base_url cfg.api_token_name
            cfg.api_token_value s).0
          ≡ ok token)
        × (auth_header json client ≡ "Bearer " <> token)
  unfolding auth_header new_mas_client
  auth_header-refreshed cfg payload_logging s client h built =
      let (token, fetched, stored) = ensure_mas_token-fetched cfg s h in
      let sent : auth_header json client
          ≡ "Bearer " <> (ensure_mas_token http json true cfg s).0.1.token =
        rw (new_client-cfg _ client built) (rw (ensure_mas_token-api_key cfg s h) refl) in
      (token, fetched, sent ∙ ap (λ t. "Bearer " <> t) stored)
