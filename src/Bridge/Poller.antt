-- ===== src/Bridge/Poller.antt =====
-- services/scim-bridge/internal/bridge/poller.go. Log lines are not modelled.
pub mod Scoped
pub mod Removed
pub mod Complete
pub mod WellFormed
use mas_iam_operator.Prelude.{
  ℕ, Bool, true, false, ◌&&◌, none, some, List, [], ◌∷◌, ◌==◌, if◌then◌else◌, is_nil,
}
use mas_iam_operator.Prelude.Text.{CaseTable}
use mas_iam_operator.Errors.{wrapped, ok, err}
use mas_iam_operator.Keycloak.Users.{User}
use mas_iam_operator.Mas.Api.{MasApi}
use mas_iam_operator.State.Entry.{status_error}
use mas_iam_operator.State.Api.{Store}
use mas_iam_operator.Bridge.Profile.{ProfileResolver}
use mas_iam_operator.Bridge.Scope.{KeycloakSource, UserScope, candidates, filter}
use mas_iam_operator.Bridge.Planner.{
  ActionType, create, update, deactivate, other, Action, plan, plan_removals,
}
use mas_iam_operator.Bridge.Executor.{execute}
use mas_iam_operator.Bridge.Executor.Steps.{World, Outcome, Executor}

-- `action.Type == ActionUpdate`
unfoldable pub is_update : ActionType → Bool
is_update create = false
is_update update = true
is_update deactivate = false
is_update (other _) = false

-- The test that skips an update after an earlier MAS error.
unfoldable pub is_held_back : Action → Bool
unfolding is_update
is_held_back a = is_update a.action_type && (a.state_status == status_error)

module _ (S : Store) (M : MasApi) (x : Executor M) where
  -- A loop that executes actions until one returns an error.
  unfoldable pub execute_all : List Action → World S M → Outcome S M
  execute_all [] w = (none, w)
  execute_all (a ∷ actions) w =
      let (failed, w') = execute S M x a w in
      let rest = execute_all actions w' in
      elim failed [ some e ↦ (some (wrapped "execute action" e), w') | none ↦ rest ]

  -- The loop over the planned actions, which leaves some out.
  unfoldable pub execute_planned : List Action → World S M → Outcome S M
  execute_planned [] w = (none, w)
  execute_planned (a ∷ actions) w =
      let (failed, w') = execute S M x a w in
      let skipped = execute_planned actions w in
      let rest = execute_planned actions w' in
      if is_held_back a
      then skipped
      else elim failed [ some e ↦ (some (wrapped "execute action" e), w') | none ↦ rest ]

  unfoldable pub reconcile_removals : List User → World S M → Outcome S M
  unfolding execute_all
  reconcile_removals scoped w = elim (plan_removals S scoped w.store) [
    | err e ↦ (some e, w)
    | ok actions ↦ execute_all actions w
  ]

module _ ⦃c : CaseTable⦄ (S : Store) (M : MasApi) (resolver : ProfileResolver)
    (x : Executor M) where
  -- `RunOnce` once the scoped users are known.
  unfoldable pub reconcile : UserScope → List User → World S M → Outcome S M
  unfolding execute_planned reconcile_removals
  reconcile scope users w =
      let (actions, st) = plan S resolver users w.store in
      let (failed, w') = execute_planned S M x actions (record w { store = st }) in
      elim failed [
        | some e ↦ (some e, w')
        | none ↦
            if is_nil scope.include_groups then (none, w') else reconcile_removals S M x users w'
      ]

  unfoldable pub run_once :
      (kc : KeycloakSource) → ℕ → UserScope → kc.State → World S M → Outcome S M × kc.State
  unfolding reconcile
  run_once kc fuel scope k w =
      let (found, k') = candidates kc fuel scope k in
      elim found [
        | err e ↦ ((some e, w), k')
        | ok users ↦ (reconcile scope (filter scope users) w, k')
      ]
