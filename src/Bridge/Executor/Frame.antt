-- ===== src/Bridge/Executor/Frame.antt =====
-- What an action leaves alone: services/scim-bridge/internal/bridge/executor.go.
use mas_iam_operator.Prelude.{String, ◌≡◌, true, false, List, [], ◌∷◌, arith, ◌==◌, ◌≢◌}
use mas_iam_operator.Mas.Payload.{UserResource, MasUser, build_user_payload}
use mas_iam_operator.Mas.Api.{MasApi}
use mas_iam_operator.State.Entry.{Entry}
use mas_iam_operator.State.Api.{Store, IsLawful}
use mas_iam_operator.Bridge.Planner.{Action, create}
use mas_iam_operator.Bridge.Executor.{execute}
use mas_iam_operator.Bridge.Executor.Steps.{
  World, Executor, adopt, execute_create, execute_update, execute_deactivate,
}

module _ (S : Store) (M : MasApi) (d : String) (L : IsLawful S d) (x : Executor M) (a : Action)
    (j : String) (other : (a.user.id == j) ≡ false) where
  save-frame :
      (st : S.State) (entry : Entry) → S.lookup (S.save st a.user.id entry).1 j ≡ S.lookup st j
  save-frame st entry = ground (arith, L.lookup-save st a.user.id j entry)

  adopt-frame :
      (payload : UserResource) (filter : String) (users : List MasUser) (w : World S M)
      → S.lookup (adopt S M a payload filter users w).1.store j ≡ S.lookup w.store j
  unfolding adopt
  adopt-frame payload filter [] w = save-frame w.store _
  adopt-frame payload filter (u ∷ []) w = save-frame w.store _
  adopt-frame payload filter (u ∷ v ∷ users) w = save-frame w.store _

  deactivate-frame :
      (w : World S M) → S.lookup (execute_deactivate S M x a w).1.store j ≡ S.lookup w.store j
  unfolding execute_deactivate
  deactivate-frame w = grind (arith, save-frame)

  create-frame :
      (payload : UserResource) (w : World S M)
      → S.lookup (execute_create S M x a payload w).1.store j ≡ S.lookup w.store j
  unfolding execute_create
  create-frame payload w = grind (arith, save-frame)

  update-frame :
      (payload : UserResource) (w : World S M)
      → S.lookup (execute_update S M x a payload w).1.store j ≡ S.lookup w.store j
  unfolding execute_update
  update-frame payload w = grind (arith, save-frame)

  -- Whatever the action and the answers of MAS, executing an action leaves the entry of every other
  -- identity as it was.
  pub execute-frame : (w : World S M) → S.lookup (execute S M x a w).1.store j ≡ S.lookup w.store j
  unfolding execute
  execute-frame w = ground (
    arith,
    create-frame (build_user_payload a.user) w,
    update-frame (build_user_payload a.user) w,
    deactivate-frame w,
  )

module _ (S : Store) (M : MasApi) (x : Executor M) (a : Action) where
  create-dry_run :
      (payload : UserResource) (w : World S M)
      → x.dry_run ≡ true
      → (execute_create S M x a payload w).1.mas ≡ w.mas
  unfolding execute_create
  create-dry_run payload w h = ground arith

  update-dry_run :
      (payload : UserResource) (w : World S M)
      → x.dry_run ≡ true
      → execute_update S M x a payload w ≡ ((execute_update S M x a payload w).0, w)
  unfolding execute_update
  update-dry_run payload w h = ground arith

  deactivate-dry_run :
      (w : World S M) → x.dry_run ≡ true → (execute_deactivate S M x a w).1.mas ≡ w.mas
  unfolding execute_deactivate
  deactivate-dry_run w h = ground arith

  -- In a dry run no action makes a call of MAS: its state stays what it was.
  pub execute-dry_run : (w : World S M) → x.dry_run ≡ true → (execute S M x a w).1.mas ≡ w.mas
  unfolding execute
  execute-dry_run w h = ground (
    arith,
    create-dry_run (build_user_payload a.user) w h,
    update-dry_run (build_user_payload a.user) w h,
    deactivate-dry_run w h,
  )

  -- With updates disabled, an update and a deactivation change neither the store nor MAS.
  pub execute-no_updates :
      (w : World S M) → x.allow_updates ≡ false → a.action_type ≢ create → (execute S M x a w).1 ≡ w
  unfolding execute execute_update execute_deactivate
  execute-no_updates w h n = ground arith
