-- ===== src/Bridge/Poller/Scoped.antt =====
-- Whom a pass can change: `RunOnce` in services/scim-bridge/internal/bridge/poller.go.
use mas_iam_operator.Prelude.{
  ℕ, String, ◌≡◌, refl, inl, inr, true, false, List, [], ◌∷◌, ◌++◌, arith, ◌==◌, is_nil, has,
}
use mas_iam_operator.Errors.{ok, Result-cases}
use mas_iam_operator.Bridge.Profile.{ProfileResolver}
use mas_iam_operator.Bridge.Scope.{KeycloakSource, UserScope, candidates, filter}
use mas_iam_operator.Bridge.Planner.{Action, plan_user, plan, user_ids}
use mas_iam_operator.Bridge.Planner.Plan.{plan-frame}
use mas_iam_operator.Bridge.Executor.Frame.{execute-frame}
use mas_iam_operator.Bridge.Poller.{execute_planned, reconcile, run_once}
use mas_iam_operator.Prelude.Text.{CaseTable}
use mas_iam_operator.State.Api.{Store, IsLawful}
use mas_iam_operator.Keycloak.Users.{User}
use mas_iam_operator.Mas.Api.{MasApi}
use mas_iam_operator.Bridge.Executor.Steps.{Executor, World}
use mas_iam_operator.Bridge.Executor.{execute}

-- None of the actions is for this user.
abbrev pub NotFor : String → List Action → Type 0
NotFor k [] = Unit
NotFor k (a ∷ actions) = ((a.user.id == k) ≡ false) × NotFor k actions

NotFor-append : (k : String) (xs ys : List Action) → NotFor k xs → NotFor k ys → NotFor k (xs ++ ys)
NotFor-append k [] ys h i = i
NotFor-append k (x ∷ xs) ys h i = (h.0, NotFor-append k xs ys h.1 i)

module _ ⦃c : CaseTable⦄ (S : Store) (resolver : ProfileResolver) where
  plan_user-NotFor :
      (u : User) (st : S.State) (k : String)
      → (u.id == k) ≡ false
      → NotFor k (plan_user S resolver u st).0
  unfolding plan_user
  plan_user-NotFor u st k h = ground arith

  plan-NotFor :
      (users : List User) (st : S.State) (k : String)
      → has k (user_ids users) ≡ false
      → NotFor k (plan S resolver users st).0
  unfolding plan has user_ids
  plan-NotFor [] st k h = tt
  plan-NotFor (u ∷ users) st k h =
      NotFor-append k (plan_user S resolver u st).0 _ (plan_user-NotFor u st k (ground arith))
        (plan-NotFor users (plan_user S resolver u st).1 k (ground arith))

module _ ⦃c : CaseTable⦄ (S : Store) (M : MasApi) (d : String) (L : IsLawful S d) (x : Executor M)
    (k : String) where
  execute_planned-frame :
      (actions : List Action) (w : World S M)
      → NotFor k actions
      → S.lookup (execute_planned S M x actions w).1.store k ≡ S.lookup w.store k
  unfolding execute_planned
  execute_planned-frame [] w h = refl
  execute_planned-frame (a ∷ actions) w h = ground (
    arith,
    execute-frame S M d L x a k h.0 w,
    execute_planned-frame actions w h.1,
    execute_planned-frame actions (execute S M x a w).1 h.1,
  )

  reconcile-frame :
      (resolver : ProfileResolver) (scope : UserScope) (users : List User) (w : World S M)
      → is_nil scope.include_groups ≡ true
      → has k (user_ids users) ≡ false
      → S.lookup (reconcile S M resolver x scope users w).1.store k ≡ S.lookup w.store k
  unfolding reconcile
  reconcile-frame resolver scope users w g h =
      let planned = plan S resolver users w.store in
      ground (
        arith,
        plan-frame S d L resolver users w.store k h,
        execute_planned-frame (plan S resolver users w.store).0
            (record w { store = (plan S resolver users w.store).1 })
            (plan-NotFor S resolver users w.store k h),
      )

  -- With no group configured, a pass changes the entries of those users only whom Keycloak lists
  -- and the filters let through: nobody who is missing from the page is deactivated or changed,
  -- whatever MAS answers and wherever the pass stops.
  pub run_once-frame :
      (resolver : ProfileResolver) (kc : KeycloakSource) (fuel : ℕ) (scope : UserScope)
      (s : kc.State) (w : World S M)
      → is_nil scope.include_groups ≡ true
      → ((users : List User)
          → (candidates kc fuel scope s).0 ≡ ok users
          → has k (user_ids (filter scope users)) ≡ false)
      → S.lookup (run_once S M resolver x kc fuel scope s w).0.1.store k ≡ S.lookup w.store k
  unfolding run_once
  run_once-frame resolver kc fuel scope s w g h =
      elim (Result-cases (candidates kc fuel scope s).0) [
        | inl (users, e) ↦
            rw (e, run_once) (reconcile-frame resolver scope (filter scope users) w g (h users e))
        | inr (x', e) ↦ rw (e, run_once) refl
      ]
