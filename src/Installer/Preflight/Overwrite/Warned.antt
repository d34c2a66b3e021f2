-- ===== src/Installer/Preflight/Overwrite/Warned.antt =====
-- When `CheckIDPCfgOverwrite` of tools/mas-iam-installer/internal/preflight/preflight.go warns.
use mas_iam_operator.Prelude.{
  String, ◌≡◌, refl, ◌↔◌, inl, inr, Bool, true, false, not, ◌||◌, Option, none, some, List, [], ◌∷◌,
  arith, ◌==◌, Bool-cases, is_some, is_nil, has,
}
use mas_iam_operator.Errors.{Result, ok, err}
use mas_iam_operator.Prelude.Text.{CaseTable, trim_space}
use mas_iam_operator.Installer.Components.{Quoting}
use mas_iam_operator.Installer.Cluster.{IdpCfgSummary}
use mas_iam_operator.Installer.Preflight.{IdpCfgPlan, is_error, status_ok}
use mas_iam_operator.Installer.Preflight.Overwrite.{
  by_name, plan_names, collisions, report_collisions, report_listed, report_lookup,
  check_idp_cfg_overwrite,
}

unfoldable pub summary_names : List IdpCfgSummary → List String
summary_names [] = []
summary_names (item ∷ items) = item.name ∷ summary_names items

is_some-by_name :
    (want : String) (items : List IdpCfgSummary)
    → is_some (by_name want items) ≡ has want (summary_names items)
unfolding by_name summary_names has
is_some-by_name want [] = refl
is_some-by_name want (item ∷ items) = ground (arith, is_some-by_name want items)

-- Whether a planned name is that of an existing object.
unfoldable pub any_taken : List IdpCfgSummary → List String → Bool
any_taken existing [] = false
any_taken existing (want ∷ planned) =
    has want (summary_names existing) || any_taken existing planned

module _ ⦃u : CaseTable⦄ ⦃q : Quoting⦄ where
  is_nil-collisions :
      (existing : List IdpCfgSummary) (planned : List String)
      → is_nil (collisions existing planned) ≡ not (any_taken existing planned)
  unfolding collisions any_taken
  is_nil-collisions existing [] = refl
  is_nil-collisions existing (want ∷ planned) =
      ground (arith, is_some-by_name want existing, is_nil-collisions existing planned)

  report_collisions_status :
      (namespace : String) (planned found : List String)
      → (is_error (report_collisions namespace planned found).status ≡ false)
        × (((report_collisions namespace planned found).status ≡ status_ok) ↔ (is_nil found ≡ true))
  unfolding report_collisions is_error
  report_collisions_status namespace planned [] = (refl, ((λ h. refl), (λ h. refl)))
  report_collisions_status namespace planned (x ∷ xs) = (refl, ((λ h. cc), (λ h. cc)))

  listed_status :
      (namespace : String) (planned : List String) (r : Result (List IdpCfgSummary))
      → is_error (report_listed namespace planned r).status ≡ false
  unfolding report_listed is_error
  listed_status namespace planned (err e) = refl
  listed_status namespace planned (ok existing) =
      (report_collisions_status namespace planned (collisions existing planned)).0

  lookup_status :
      (namespace : String) (planned : List String)
      (lookup : Option (String → Result (List IdpCfgSummary)))
      → is_error (report_lookup namespace planned lookup).status ≡ false
  unfolding report_lookup is_error
  lookup_status namespace planned none = refl
  lookup_status namespace planned (some f) = listed_status namespace planned (f namespace)

  -- The check never fails an installation.
  pub never_error :
      (lookup : Option (String → Result (List IdpCfgSummary))) (plan : IdpCfgPlan)
      → is_error (check_idp_cfg_overwrite lookup plan).status ≡ false
  unfolding check_idp_cfg_overwrite is_error
  never_error lookup plan =
      elim (Bool-cases (trim_space plan.core_namespace == "" || is_nil (plan_names plan))) [
        | inl e ↦ rw (check_idp_cfg_overwrite, e) refl
        | inr e ↦
            rw (check_idp_cfg_overwrite, e)
              (lookup_status (trim_space plan.core_namespace) (plan_names plan) lookup)
      ]

  -- The check of an installation whose plan has names and whose objects can be listed passes exactly
  -- when no planned name is taken, and it never reports an error.
  pub check_idp_cfg_overwrite_status :
      (plan : IdpCfgPlan) (list_idp_cfgs : String → Result (List IdpCfgSummary))
      (existing : List IdpCfgSummary)
      → (trim_space plan.core_namespace == "") ≡ false
      → is_nil (plan_names plan) ≡ false
      → list_idp_cfgs (trim_space plan.core_namespace) ≡ ok existing
      → (is_error (check_idp_cfg_overwrite (some list_idp_cfgs) plan).status ≡ false)
        × (((check_idp_cfg_overwrite (some list_idp_cfgs) plan).status ≡ status_ok)
            ↔ (any_taken existing (plan_names plan) ≡ false))
  unfolding check_idp_cfg_overwrite report_lookup report_listed
  check_idp_cfg_overwrite_status plan list_idp_cfgs existing h n e = (
    never_error (some list_idp_cfgs) plan,
    rw (check_idp_cfg_overwrite, h, n) (rw (report_lookup, e) (passed_iff _ _)),
  )
    where
      passed_iff :
          (namespace : String) (planned : List String)
          → ((report_collisions namespace planned (collisions existing planned)).status ≡ status_ok)
            ↔ (any_taken existing planned ≡ false)
      passed_iff namespace planned =
          let found =
            (report_collisions_status namespace planned (collisions existing planned)).1 in
          let taken = is_nil-collisions existing planned in
          ((λ s. ground (arith, found.0 s, taken)), (λ t. found.1 (ground (arith, t, taken))))
