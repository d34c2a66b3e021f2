-- ===== src/Installer/Preflight/Run.antt =====
-- `Run` and `Print` of tools/mas-iam-installer/internal/preflight/preflight.go.
pub mod Passed
use mas_iam_operator.Errors.{
  error_text, ResponseError, Error, message, response, mas_unauthorized, wrapped, as_response,
  is_unauthorized, Result, ok, err, wrap_error, wrap_result,
}
use mas_iam_operator.Prelude.{
  ℕ, zero, suc, ◌+◌, ◌-◌, ◌*◌, ◌≤◌, ◌<◌, String, ◌<>◌, ◌≡◌, refl, sym, ap, ◌∙◌, ◌≢◌, ◌↔◌, ◌⊎◌, inl,
  inr, Bool, true, false, not, ◌&&◌, ◌||◌, Option, none, some, List, [], ◌∷◌, ◌++◌, arith, ◌==◌,
  starts_with, eq_iff, eq_refl, ltb, leb, nat_beq, if◌then◌else◌, Bool-cases, Option-cases, is_some,
  is_nil, length, take, drop, keep, All, has, has-append,
}
use mas_iam_operator.Prelude.Text.{CaseTable, trim_space, join}
use mas_iam_operator.Prelude.Decimal.{itoa}
use mas_iam_operator.Http.{Http}
use mas_iam_operator.Installer.Components.{Quoting}
use mas_iam_operator.Installer.Storage.{StorageClass, StorageRanking, rank_storage_classes}
use mas_iam_operator.Installer.Cluster.{
  Oc, RouteRef, check_available, who_am_i, storage_classes, routes_by_host, idp_cfgs,
}
use mas_iam_operator.Installer.Admin.Client.{AdminJson}
use mas_iam_operator.Installer.Preflight.{Finding, Input, Report, status_text, warn, fine, failure}
use mas_iam_operator.Installer.Preflight.Overwrite.{check_idp_cfg_overwrite}
use mas_iam_operator.Installer.Preflight.Probes.{parse_mas_host, check_oidc_endpoint, check_api_key}

abbrev no_ranking : StorageRanking
no_ranking = record { default = ""; recommended = ""; choices = []; warning = "" }

-- `Report{Namespace: …}`
abbrev pub empty_report : String → Report
empty_report namespace = record {
  namespace = namespace;
  cluster_user = "";
  cluster_server = "";
  mas_host = "";
  storage = no_ranking;
  results = [];
}

-- `report.Results = append(report.Results, …)`
unfoldable pub add : Report → Finding → Report
add r f = record r { results = r.results ++ (f ∷ []) }

module _ ⦃u : CaseTable⦄ where
  storage_report : Report → Result (List StorageClass) → Report
  unfolding itoa
  storage_report r (err e) = add r (failure "storage-classes" (error_text e))
  storage_report r (ok classes) =
      let ranking = rank_storage_classes classes in
      let found = fine "storage-classes" (
        "discovered "
        <> (itoa (length classes) <> (" storage classes; recommended=" <> ranking.recommended))) in
      if is_nil classes
      then add r (failure "storage-classes" "no storage classes were returned by oc get sc")
      else if not (ranking.warning == "")
      then add (add (record r { storage = ranking }) found)
          (warn "storage-selection" ranking.warning)
      else add (record r { storage = ranking }) found

refs_of : List RouteRef → List String
refs_of [] = []
refs_of (route ∷ routes) = (route.namespace <> ("/" <> route.name)) ∷ refs_of routes

route_finding : String → Result (List RouteRef) → Finding
unfolding refs_of
route_finding host (err e) =
    warn "mas-route-lookup"
      ("route lookup could not be completed for host " <> (host <> (": " <> error_text e)))
route_finding host (ok []) = warn "mas-route-lookup" (
    "no OpenShift route matched host "
    <> (host <> "; MAS CA auto-detect may need manual route details"))
route_finding host (ok (route ∷ [])) =
    fine "mas-route-lookup" ("matched route " <> (route.namespace <> ("/" <> route.name)))
route_finding host (ok (route ∷ other ∷ routes)) = warn "mas-route-lookup" (
    "multiple routes matched host "
    <> (host <> (": " <> join ", " (refs_of (route ∷ other ∷ routes)))))

module _ ⦃u : CaseTable⦄ ⦃q : Quoting⦄ (json : AdminJson) (http : Http) (oc : Oc) where
  -- The two probes of MAS, in turn.
  probe_oidc : Input → Report × http.State → Report × http.State
  probe_oidc input (r, n) =
      let (f, n') = check_oidc_endpoint json http input.mas_base_url n in
      if input.check_oidc_endpoint then (add r f, n') else (r, n)

  probe_key : Input → Report × http.State → Report × http.State
  probe_key input (r, n) =
      let (f, n') =
        check_api_key json http input.mas_base_url input.api_token_name input.api_token_value n in
      if not (input.api_token_name == "") && not (input.api_token_value == "")
      then (add r f, n')
      else (r, n)

  probe_route : String → Report × http.State → Report × http.State
  unfolding route_finding
  probe_route host (r, n) = (add r (route_finding host (routes_by_host oc host)), n)

  -- What follows the checks of the cluster.
  probe_mas : Input → Report → http.State → Report × http.State
  unfolding probe_oidc probe_key probe_route
  probe_mas input r n =
      if trim_space input.mas_base_url == ""
      then (add r (warn "mas-base-url" "skipped because no SCIM-backed component was selected"), n)
      else elim (parse_mas_host json input.mas_base_url) [
        | err e ↦ (add r (failure "mas-base-url" (error_text e)), n)
        | ok host ↦ probe_route host (
            probe_key input (
              probe_oidc input (
                add (record r { mas_host = host })
                    (fine "mas-base-url" ("parsed MAS host " <> host)),
                n,
              )))
      ]

  probe_overwrite : Input → Report → Report
  probe_overwrite input r =
      if input.check_idp_cfg_overwrite
      then add r (check_idp_cfg_overwrite (some (idp_cfgs oc)) input.idp_cfg_plan)
      else r

  -- The checks after the login, in turn.
  run_logged_in : Input → String × String → Report → http.State → Report × http.State
  unfolding storage_report probe_overwrite probe_mas
  run_logged_in input (user, server) r n =
      probe_mas input
        (probe_overwrite input (
          storage_report
            (add (record r { cluster_user = user; cluster_server = server })
              (fine "cluster-login" ("logged in as " <> (user <> (" against " <> server)))))
            (storage_classes oc)))
        n

  unfoldable pub run : Input → http.State → Report × http.State
  unfolding run_logged_in
  run input n =
      let r = empty_report input.namespace in
      elim (check_available oc) [
        | some e ↦ (add r (failure "oc" (error_text e)), n)
        | none ↦
            let r' = add r (fine "oc" "oc CLI found on PATH") in
            elim (who_am_i oc) [
              | err e ↦ (add r' (failure "cluster-login" (error_text e)), n)
              | ok who ↦ run_logged_in input who r' n
            ]
      ]

-- `if value != "" { fmt.Fprintf(w, "[context] name=value\n") }`
abbrev context_line : String → String → List String
context_line name value =
    if not (value == "") then ("[context] " <> (name <> ("=" <> value))) ∷ [] else []

result_lines : List Finding → List String
result_lines [] = []
result_lines (f ∷ fs) =
    ("[" <> (status_text f.status <> ("] " <> (f.name <> (": " <> f.text))))) ∷ result_lines fs

-- The lines that are written.
unfoldable pub print : Report → List String
unfolding result_lines
print r =
    (if not (r.cluster_server == "") || (not (r.cluster_user == "") || not (r.namespace == ""))
      then context_line "cluster" r.cluster_server
        ++ (context_line "user" r.cluster_user
            ++ (context_line "namespace" r.namespace
                ++ (context_line "default_storage_class" r.storage.default
                    ++ (context_line "recommended_storage_class" r.storage.recommended
                        ++ context_line "mas_host" r.mas_host))))
      else [])
    ++ result_lines r.results
