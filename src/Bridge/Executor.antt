-- ===== src/Bridge/Executor.antt =====
-- services/scim-bridge/internal/bridge/executor.go. Log lines are not modelled.
pub mod Entries
pub mod Steps
pub mod Frame
pub mod Refused
pub mod Deactivation
pub mod Identity
pub mod WellFormed
pub mod Convergence
use mas_iam_operator.Prelude.{
  String, ◌<>◌, Bool, not, none, some, List, [], ◌∷◌, ◌==◌, Option, if◌then◌else◌,
}
use mas_iam_operator.Errors.{Error, message}
use mas_iam_operator.Mas.Payload.{build_user_payload}
use mas_iam_operator.Mas.Api.{MasApi}
use mas_iam_operator.State.Api.{Store}
use mas_iam_operator.Bridge.Planner.{Action, create, update, deactivate, other}
use mas_iam_operator.Bridge.Executor.Steps.{
  World, Outcome, Executor, execute_create, execute_update, execute_deactivate,
}
use mas_iam_operator.Bridge.Executor.Steps

module _ (S : Store) (M : MasApi) where
  -- `Execute`
  unfoldable pub execute : Executor M → Action → World S M → Outcome S M
  execute x a w = elim a.action_type [
    | create ↦ execute_create S M x a (build_user_payload a.user) w
    | update ↦ execute_update S M x a (build_user_payload a.user) w
    | deactivate ↦ execute_deactivate S M x a w
    | other _ ↦ (none, w)
  ]
