-- ===== src/Bridge/Executor/Refused.antt =====
-- The errors of an action: services/scim-bridge/internal/bridge/executor.go.
use mas_iam_operator.Errors.{is_unauthorized, Error}
use mas_iam_operator.Bridge.Executor.Steps.{
  World, Executor, execute_create, execute_update, execute_deactivate,
}
use mas_iam_operator.State.Api.{Store, IsLawful}
use mas_iam_operator.Mas.Api.{MasApi}
use mas_iam_operator.Prelude.{String, Option, arith, ◌≡◌, some, false, true}
use mas_iam_operator.Bridge.Planner.{Action}
use mas_iam_operator.State.Entry.{Entry}
use mas_iam_operator.Mas.Payload.{UserResource, build_user_payload}
use mas_iam_operator.Bridge.Executor.{execute}

module _ (S : Store) (M : MasApi) (d : String) (L : IsLawful S d) (x : Executor M)
    (a : Action) where
  -- The outcome leaves the store alone if its error says that MAS refused the credentials.
  abbrev IsReplayable : World S M → Option Error × World S M → Type 0
  IsReplayable w r = (e : Error) → r.0 ≡ some e → is_unauthorized e ≡ true → r.1.store ≡ w.store

  save-authorized :
      (st : S.State) (entry : Entry) (e : Error)
      → (S.save st a.user.id entry).0 ≡ some e
      → is_unauthorized e ≡ false
  save-authorized st entry e h = L.save-authorized st a.user.id entry e h

  deactivate-IsReplayable : (w : World S M) → IsReplayable w (execute_deactivate S M x a w)
  unfolding execute_deactivate is_unauthorized
  deactivate-IsReplayable w e h k = grind (arith, save-authorized)

  create-IsReplayable :
      (payload : UserResource) (w : World S M) → IsReplayable w (execute_create S M x a payload w)
  unfolding execute_create is_unauthorized
  create-IsReplayable payload w e h k = grind (arith, save-authorized)

  update-IsReplayable :
      (payload : UserResource) (w : World S M) → IsReplayable w (execute_update S M x a payload w)
  unfolding execute_update is_unauthorized
  update-IsReplayable payload w e h k = grind (arith, save-authorized)

  -- If an action ends with the error that MAS refused the credentials, the store is as before the
  -- action, so that the action can be taken again with a new token.
  pub execute-unauthorized :
      (w : World S M) (e : Error)
      → (execute S M x a w).0 ≡ some e
      → is_unauthorized e ≡ true
      → (execute S M x a w).1.store ≡ w.store
  unfolding execute
  execute-unauthorized w e h k = ground (
    arith,
    create-IsReplayable (build_user_payload a.user) w e,
    update-IsReplayable (build_user_payload a.user) w e,
    deactivate-IsReplayable w e,
  )
