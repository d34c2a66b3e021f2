-- ===== src/Bridge/Poller/Complete.antt =====
-- A whole pass with groups: `RunOnce` in services/scim-bridge/internal/bridge/poller.go.
use mas_iam_operator.Prelude.{
  ℕ, String, ◌≡◌, inl, inr, true, false, none, List, arith, Option-cases, is_nil,
}
use mas_iam_operator.Errors.{ok}
use mas_iam_operator.Prelude.Text.{CaseTable}
use mas_iam_operator.Prelude.Dict.{Dict}
use mas_iam_operator.State.Entry.{Entry}
use mas_iam_operator.State.Api.{Store, IsLawful}
use mas_iam_operator.Mas.Api.{MasApi}
use mas_iam_operator.Keycloak.Users.{User}
use mas_iam_operator.Bridge.Profile.{ProfileResolver}
use mas_iam_operator.Bridge.Scope.{KeycloakSource, UserScope, candidates, filter}
use mas_iam_operator.Bridge.Planner.{plan, user_ids}
use mas_iam_operator.Bridge.Planner.Removals.{is_due}
use mas_iam_operator.Bridge.Executor.Steps.{World, Executor, deactivate_ops}
use mas_iam_operator.Bridge.Executor.Deactivation.{is_gone}
use mas_iam_operator.Bridge.Poller.{execute_planned, reconcile, run_once}
use mas_iam_operator.Bridge.Poller.Removed.{reconcile_removals_complete}

module _ ⦃c : CaseTable⦄ (S : Store) (M : MasApi) (d : String) (L : IsLawful S d) (x : Executor M)
    (live : x.dry_run ≡ false) (allowed : x.allow_updates ≡ true)
    (saves : (st : S.State) (k : String) (e : Entry) → (S.save st k e).0 ≡ none)
    (lists : (st : S.State) → (m : Dict Entry) × (S.list st ≡ ok m))
    (accepts : (p id : String) (m : M.State)
      → is_gone (M.patch_user x.mas p id deactivate_ops m).0 ≡ true)
    (resolver : ProfileResolver) (scope : UserScope)
    (grouped : is_nil scope.include_groups ≡ false) where
  reconcile-is_due :
      (users : List User) (w : World S M) (k : String)
      → (reconcile S M resolver x scope users w).0 ≡ none
      → is_due (user_ids users) k (S.lookup (reconcile S M resolver x scope users w).1.store k)
        ≡ false
  unfolding reconcile
  reconcile-is_due users w k h =
      let planned = plan S resolver users w.store in
      let run = execute_planned S M x planned.0 (record w { store = planned.1 }) in
      elim (Option-cases run.0) [
        | inr (e, q) ↦ absurd (ground (arith, q, h))
        | inl q ↦
            let (m, listed) = lists run.1.store in
            rw (q, grouped, reconcile)
              (reconcile_removals_complete S M d L x live allowed saves accepts users run.1 m listed
                k).1
      ]

  -- With groups configured, if MAS accepts the requests that deactivate users, or has no such user,
  -- and the store can be read and written, then after every pass that ends with no error nobody is
  -- due for deactivation: everybody who is tracked with a MAS identity is in scope or a tombstone.
  pub run_once-is_due :
      (kc : KeycloakSource) (fuel : ℕ) (s : kc.State) (w : World S M) (users : List User)
      → (candidates kc fuel scope s).0 ≡ ok users
      → (run_once S M resolver x kc fuel scope s w).0.0 ≡ none
      → (k : String)
      → is_due
          (user_ids (filter scope users))
          k
          (S.lookup (run_once S M resolver x kc fuel scope s w).0.1.store k)
        ≡ false
  unfolding run_once
  run_once-is_due kc fuel s w users found h k =
      rw (found, run_once) (reconcile-is_due (filter scope users) w k (rw (found, run_once) at h))
