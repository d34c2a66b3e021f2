-- ===== src/Installer/Preflight/Run/Passed.antt =====
-- What `Run` of tools/mas-iam-installer/internal/preflight/preflight.go lets pass.
use mas_iam_operator.Prelude.{
  String, ◌≡◌, refl, sym, ◌∙◌, ◌⊎◌, inl, inr, true, false, not, ◌&&◌, ◌||◌, none, List, [], ◌∷◌,
  ◌++◌, arith, ◌==◌, Bool-cases, Option-cases, is_nil,
}
use mas_iam_operator.Errors.{Error, Result, ok, err, Result-cases}
use mathlib.Core.Bool.{true≢false}
use mas_iam_operator.Prelude.Text.{CaseTable, trim_space}
use mas_iam_operator.Http.{Http}
use mas_iam_operator.Installer.Components.{Quoting}
use mas_iam_operator.Installer.Storage.{StorageClass}
use mas_iam_operator.Installer.Cluster.{Oc, check_available, who_am_i, storage_classes}
use mas_iam_operator.Installer.Admin.Client.{AdminJson}
use mas_iam_operator.Installer.Preflight.{
  fine, Finding, Input, Report, any_error, has_failures, is_error,
}
use mas_iam_operator.Installer.Preflight.Probes.{parse_mas_host}
use mas_iam_operator.Installer.Preflight.Run.{
  empty_report, add, storage_report, probe_oidc, probe_key, probe_route, probe_mas, probe_overwrite,
  run_logged_in, run,
}

any_error-append :
    (xs : List Finding) (f : Finding)
    → any_error (xs ++ (f ∷ [])) ≡ (any_error xs || is_error f.status)
unfolding any_error
any_error-append [] f = ground arith
any_error-append (x ∷ xs) f = ground (arith, any_error-append xs f)

abbrev HasFailed : Report → Type 0
HasFailed r = has_failures r ≡ true

-- A later result leaves a failure.
add-HasFailed : (r : Report) (f : Finding) → HasFailed r → HasFailed (add r f)
unfolding has_failures add
add-HasFailed r f h = ground (arith, any_error-append r.results f, h)

add_failure-HasFailed : (r : Report) (f : Finding) → is_error f.status ≡ true → HasFailed (add r f)
unfolding has_failures add
add_failure-HasFailed r f h = ground (arith, any_error-append r.results f, h)

module _ ⦃u : CaseTable⦄ ⦃q : Quoting⦄ (json : AdminJson) (http : Http) (oc : Oc)
    (input : Input) where
  probe_oidc-HasFailed :
      (r : Report) (n : http.State)
      → HasFailed r
      → HasFailed (probe_oidc json http oc input (r, n)).0
  unfolding probe_oidc
  probe_oidc-HasFailed r n h = elim (Bool-cases input.check_oidc_endpoint) [
    | inl e ↦ rw e (add-HasFailed r _ h)
    | inr e ↦ rw e h
  ]

  probe_key-HasFailed :
      (r : Report) (n : http.State)
      → HasFailed r
      → HasFailed (probe_key json http oc input (r, n)).0
  unfolding probe_key
  probe_key-HasFailed r n h =
      elim (Bool-cases (not (input.api_token_name == "") && not (input.api_token_value == ""))) [
        | inl e ↦ rw e (add-HasFailed r _ h)
        | inr e ↦ rw e h
      ]

  probe_overwrite-HasFailed :
      (r : Report) → HasFailed r → HasFailed (probe_overwrite json http oc input r)
  unfolding probe_overwrite
  probe_overwrite-HasFailed r h = elim (Bool-cases input.check_idp_cfg_overwrite) [
    | inl e ↦ rw e (add-HasFailed r _ h)
    | inr e ↦ rw e h
  ]

  probe_mas-HasFailed :
      (r : Report) (n : http.State) → HasFailed r → HasFailed (probe_mas json http oc input r n).0
  unfolding probe_mas probe_route has_failures
  probe_mas-HasFailed r n h = elim (Bool-cases (trim_space input.mas_base_url == "")) [
    | inl e ↦ rw (probe_mas, e) (add-HasFailed r _ h)
    | inr e ↦ elim (Result-cases (parse_mas_host json input.mas_base_url)) [
      | inr (x, p) ↦ rw (probe_mas, e, p) (add-HasFailed r _ h)
      | inl (host, p) ↦
          rw (probe_mas, e, p)
            (add-HasFailed _ _ (
              probe_key-HasFailed _ _
                (probe_oidc-HasFailed _ n (add-HasFailed (record r { mas_host = host }) _ h))))
    ]
  ]

  -- A missing scheme, host or path of the address of MAS is a failure.
  probe_mas_failed :
      (r : Report) (n : http.State) (x : Error)
      → (trim_space input.mas_base_url == "") ≡ false
      → parse_mas_host json input.mas_base_url ≡ err x
      → HasFailed (probe_mas json http oc input r n).0
  unfolding probe_mas is_error
  probe_mas_failed r n x e p = rw (probe_mas, e, p) (add_failure-HasFailed r _ refl)

  storage_failed :
      (r : Report) (found : Result (List StorageClass))
      → ((classes : List StorageClass) × ((found ≡ ok classes) × (is_nil classes ≡ false)))
        ⊎ HasFailed (storage_report r found)
  unfolding storage_report is_error
  storage_failed r (err x) = inr (add_failure-HasFailed r _ refl)
  storage_failed r (ok []) = inr (add_failure-HasFailed r _ refl)
  storage_failed r (ok (c ∷ cs)) = inl (c ∷ cs, (refl, refl))

  absurd_failure {ℓ} : {A : Type ℓ} (r : Report) → has_failures r ≡ false → HasFailed r → A
  absurd_failure r p f = absurd (true≢false (sym f ∙ p))

  logged_in_passed :
      (who : String × String) (r : Report) (n : http.State)
      → has_failures (run_logged_in json http oc input who r n).0 ≡ false
      → ((classes : List StorageClass) × ((storage_classes oc ≡ ok classes)
            × (is_nil classes ≡ false)))
        × ((trim_space input.mas_base_url == "") ≡ false
            → (host : String) × (parse_mas_host json input.mas_base_url ≡ ok host))
  unfolding run_logged_in
  logged_in_passed (user, server) r n p = (
    elim (storage_failed _ (storage_classes oc)) [
      | inl found ↦ found
      | inr h ↦ absurd_failure _ p (probe_mas-HasFailed _ n (probe_overwrite-HasFailed _ h))
    ],
    λ b. elim (Result-cases (parse_mas_host json input.mas_base_url)) [
      | inl parsed ↦ parsed
      | inr (x, e) ↦ absurd_failure _ p (probe_mas_failed _ n x b e)
    ],
  )

  -- A report without a failure was made with the command line client and a login, on a cluster with
  -- storage classes; and the address of MAS, if there is one, could be parsed.
  pub run_passed :
      (n : http.State)
      → has_failures (run json http oc input n).0 ≡ false
      → (check_available oc ≡ none)
        × (((who : String × String) × (who_am_i oc ≡ ok who))
            × (((classes : List StorageClass) × ((storage_classes oc ≡ ok classes)
                    × (is_nil classes ≡ false)))
                × ((trim_space input.mas_base_url == "") ≡ false
                    → (host : String) × (parse_mas_host json input.mas_base_url ≡ ok host))))
  unfolding run is_error
  run_passed n p = elim (Option-cases (check_available oc)) [
    | inr (x, e) ↦ absurd_failure _ p (rw (run, e) (add_failure-HasFailed _ _ refl))
    | inl e ↦ elim (Result-cases (who_am_i oc)) [
      | inr (x, w) ↦ absurd_failure _ p (rw (run, e, w) (add_failure-HasFailed _ _ refl))
      | inl (who, w) ↦ (
        e,
        (
          (who, w),
          logged_in_passed who
              (add (empty_report input.namespace) (fine "oc" "oc CLI found on PATH")) n
              (rw (run, e, w) at p),
        ),
      )
    ]
  ]
