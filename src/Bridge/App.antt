-- ===== src/Bridge/App.antt =====
-- services/scim-bridge/internal/bridge/app.go, from the running program on: the credentials, the
-- retry after a refused token, the polling loop and the modes. Log lines are not modelled.
pub mod Refresh
pub mod Token
use mas_iam_operator.Prelude.{
  ℕ, String, ◌<>◌, Bool, true, not, ◌&&◌, ◌||◌, none, some, List, [], ◌∷◌, ◌==◌, Option,
  if◌then◌else◌,
}
use mas_iam_operator.Prelude.Text.{CaseTable, to_lower}
use mas_iam_operator.Errors.{
  Error, message, wrapped, is_unauthorized, Result, ok, err, wrap_error, wrap_result,
}
use mas_iam_operator.Http.{Http}
use mas_iam_operator.Config.Settings.{MasConfig}
use mas_iam_operator.Mas.Client.{Client, MasJson, new_client, fetch_token, mas_client}
use mas_iam_operator.State.Api.{Store}
use mas_iam_operator.Bridge.Profile.{ProfileResolver}
use mas_iam_operator.Bridge.Scope.{KeycloakSource, UserScope}
use mas_iam_operator.Bridge.Executor.Steps.{World, Outcome, Executor}
use mas_iam_operator.Bridge.Poller.{run_once}
use mas_iam_operator.Bridge.Backfill.{backfill}

abbrev pub can_refresh_mas_token : MasConfig → Bool
can_refresh_mas_token cfg = not (cfg.api_token_name == "") && not (cfg.api_token_value == "")

module _ ⦃u : CaseTable⦄ (http : Http) (json : MasJson) where
  -- The two assignments after the token has come.
  unfoldable pub set_token : MasConfig → String → MasConfig
  set_token cfg token =
      if (cfg.auth_type == "") || (to_lower cfg.auth_type == "api-key")
      then record cfg { token = token; auth_type = "jwt" }
      else record cfg { token = token }

  -- The call of `mas.FetchToken`, and what follows it.
  obtain_token : MasConfig → http.State → (Option Error × MasConfig) × http.State
  unfolding set_token
  obtain_token cfg s =
      let (fetched, s') =
        fetch_token http json cfg.base_url cfg.api_token_name cfg.api_token_value s in
      elim fetched [
        | err e ↦ ((some (wrapped "obtain MAS token" e), cfg), s')
        | ok token ↦ ((none, set_token cfg token), s')
      ]

  -- `ensureMASToken`: the error, and the configuration after it.
  unfoldable pub ensure_mas_token :
      Bool → MasConfig → http.State → (Option Error × MasConfig) × http.State
  unfolding obtain_token
  ensure_mas_token force cfg s =
      if not force && not (cfg.token == "")
      then ((none, cfg), s)
      else if not (can_refresh_mas_token cfg)
      then (if force
          then (
            (
              some (
                  message
                    "cannot refresh MAS token: SCIM_BRIDGE_MAS_API_TOKEN_NAME/VALUE are not set"),
              cfg,
            ),
            s,
          )
          else (
            (
              some (
                  message
                    "obtain MAS token: missing SCIM_BRIDGE_MAS_TOKEN and SCIM_BRIDGE_MAS_API_TOKEN_NAME/VALUE"),
              cfg,
            ),
            s,
          ))
      else obtain_token cfg s

  unfoldable pub new_mas_client : MasConfig → Bool → Result Client
  new_mas_client cfg payload_logging =
      new_client json (record cfg { payload_logging = payload_logging })

-- What the `select` of the polling loop receives.
pub data Event : Type 0 where
  tick done : Event

module _ ⦃u : CaseTable⦄ (S : Store) (http : Http) (json : MasJson) (K : Type 0) where
  -- The variables of the running program: the configuration of MAS, the executor, the stores.
  pub record App : Type 0 where
    pub cfg : MasConfig
    pub payload_logging : Bool
    pub executor : Executor (mas_client http json)
    pub world : World S (mas_client http json)
    pub kc : K

  -- A pass over the users with an executor: `poller.RunOnce` or `backfill.Run`.
  abbrev pub Pass : Type 0
  Pass =
      Executor (mas_client http json)
      → K
      → World S (mas_client http json)
      → Outcome S (mas_client http json) × K

  unfoldable pub run_pass : Pass → App → Option Error × App
  run_pass pass app =
      let (outcome, k) = pass app.executor app.kc app.world in
      (outcome.0, record app { world = outcome.1; kc = k })

  abbrev with_mas : http.State → World S (mas_client http json) → World S (mas_client http json)
  with_mas s w = record w { mas = s }

  -- The new client and the second run.
  retry_pass : Pass → App → Option Error × App
  unfolding run_pass
  retry_pass pass app =
      elim (wrap_result "rebuild MAS client after refresh"
        (new_mas_client http json app.cfg app.payload_logging)) [
          | err e ↦ (some e, app)
          | ok client ↦
              let (failed, app') =
                run_pass pass (record app { executor = record (app.executor) { mas = client } }) in
              (wrap_error "retry after MAS token refresh" failed, app')
        ]

  refresh_and_retry : Pass → App → Option Error × App
  unfolding retry_pass
  refresh_and_retry pass app =
      let (refreshed, s) = ensure_mas_token http json true app.cfg app.world.mas in
      let app' : App = record app { cfg = refreshed.1; world = with_mas s app.world } in
      elim (wrap_error "refresh MAS token after unauthorized" refreshed.0) [
        | some e ↦ (some e, app')
        | none ↦ retry_pass pass app'
      ]

  unfoldable pub run_with_mas_refresh : Pass → App → Option Error × App
  unfolding refresh_and_retry run_pass
  run_with_mas_refresh pass app =
      let (failed, app') = run_pass pass app in
      elim failed [
        | none ↦ (none, app')
        | some e ↦
            if not (is_unauthorized e)
            then (some e, app')
            else if not (can_refresh_mas_token app'.cfg)
            then (some e, app')
            else refresh_and_retry pass app'
      ]

  -- The loop over the events, up to the first `done` or error.
  unfoldable pub poll_events : Pass → List Event → App → Option Error × App
  poll_events pass [] app = (none, app)
  poll_events pass (done ∷ events) app = (none, app)
  poll_events pass (tick ∷ events) app =
      let (failed, app') = run_with_mas_refresh pass app in
      let rest = poll_events pass events app' in
      elim failed [ some e ↦ (some e, app') | none ↦ rest ]

  unfoldable pub run_polling_loop : Pass → List Event → App → Option Error × App
  unfolding poll_events
  run_polling_loop pass events app =
      let (failed, app') = run_with_mas_refresh pass app in
      let rest = poll_events pass events app' in
      elim failed [ some e ↦ (some e, app') | none ↦ rest ]

module _ ⦃u : CaseTable⦄ (S : Store) (http : Http) (json : MasJson) (kc : KeycloakSource) (fuel : ℕ)
    (scope : UserScope) (resolver : ProfileResolver) where
  abbrev pub poll_pass : Pass S http json kc.State
  poll_pass x k w = run_once S (mas_client http json) resolver x kc fuel scope k w

  abbrev pub backfill_pass : Pass S http json kc.State
  backfill_pass x k w = backfill S (mas_client http json) resolver x.mas kc fuel scope k w

  -- The `switch` on the mode at the end of `Run`.
  unfoldable pub run_mode :
      String → List Event → App S http json kc.State → Option Error × App S http json kc.State
  run_mode mode events app =
      if (mode == "poll") || (mode == "hybrid")
      then run_polling_loop S http json kc.State poll_pass events app
      else if mode == "run-once"
      then run_with_mas_refresh S http json kc.State poll_pass app
      else if mode == "backfill"
      then run_with_mas_refresh S http json kc.State backfill_pass app
      else (some (message ("unsupported bridge mode " <> mode)), app)
