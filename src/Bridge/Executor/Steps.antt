-- ===== src/Bridge/Executor/Steps.antt =====
-- The methods of the executor below `Execute`, in services/scim-bridge/internal/bridge/executor.go.
use mas_iam_operator.Prelude.{
  String, ◌<>◌, Bool, not, none, some, List, [], ◌∷◌, ◌==◌, Option, nat_beq, if◌then◌else◌, is_nil,
  length,
}
use mas_iam_operator.Prelude.Decimal.{itoa}
use mas_iam_operator.Errors.{
  Error, message, wrapped, as_response, is_mas_unauthorized_response, wrap_mas_unauthorized, ok,
  err, wrap_error,
}
use mas_iam_operator.Mas.Payload.{UserResource, MasUser, PatchOperation}
use mas_iam_operator.Mas.Api.{MasApi}
use mas_iam_operator.State.Entry.{Snapshot, no_snapshot, is_zero, Entry, status_deactivated}
use mas_iam_operator.State.Api.{Store}
use mas_iam_operator.Bridge.Patch.{diff_to_patch}
use mas_iam_operator.Bridge.Planner.{Action}
unfoldable pub use mas_iam_operator.Bridge.Executor.Entries.{
  failure_text, synced_entry, failed_entry, deactivated_snapshot, tombstone, external_id_filter,
  user_name_filter, patched_entry, deactivate_ops,
}

-- The state that an action changes.
pub record World (S : Store) (M : MasApi) : Type 0 where
  pub store : S.State
  pub mas : M.State

abbrev pub Outcome : Store → MasApi → Type 0
Outcome S M = Option Error × World S M

pub record Executor (M : MasApi) : Type 0 where
  pub mas : M.Client
  pub dry_run : Bool
  pub allow_updates : Bool

module _ (S : Store) (M : MasApi) where
  -- `e.store.Save(ctx, action.User.ID, entry)`
  unfoldable pub save : Action → Entry → World S M → Outcome S M
  save a entry w =
      let (failed, st) = S.save w.store a.user.id entry in (failed, record w { store = st })

  -- `_ = e.store.Save(...)` and `return nil`
  unfoldable pub save_ignoring : Action → Entry → World S M → Outcome S M
  unfolding save
  save_ignoring a entry w = (none, (save a entry w).1)

  unfoldable pub save_wrapping : String → Action → Entry → World S M → Outcome S M
  unfolding save
  save_wrapping text a entry w = let (failed, w') = save a entry w in (wrap_error text failed, w')

  -- The `switch` at the end of `handleConflict`.
  unfoldable pub adopt : Action → UserResource → String → List MasUser → World S M → Outcome S M
  unfolding save_ignoring save_wrapping
  adopt a payload filter [] w =
      save_ignoring a (failed_entry a "" no_snapshot ("no MAS user found for filter " <> filter)) w
  adopt a payload filter (u ∷ []) w =
      save_wrapping "store adopted correlation" a (synced_entry a u.id payload) w
  adopt a payload filter (u ∷ v ∷ users) w =
      save_ignoring a
        (failed_entry a "" no_snapshot (
          "multiple MAS users matched filter "
          <> (filter <> (" (count=" <> (itoa (length (u ∷ v ∷ users)) <> ")")))))
        w

  -- From `if len(users) == 0` on.
  unfoldable pub adopt_or_search :
      Executor M → Action → UserResource → String → List MasUser → World S M → Outcome S M
  unfolding adopt
  adopt_or_search x a payload filter (u ∷ users) w = adopt a payload filter (u ∷ users) w
  adopt_or_search x a payload filter [] w =
      let (found, m) = M.search_users x.mas a.profile_id (user_name_filter a) w.mas in
      let w' : World S M = record w { mas = m } in
      elim found [
        | ok users ↦ adopt a payload (user_name_filter a) users w'
        | err e ↦
            if is_mas_unauthorized_response e
            then (some (wrap_mas_unauthorized e), w')
            else adopt a payload (user_name_filter a) [] w'
      ]

  -- The search by user name after a failed search by external identity.
  unfoldable pub search_again : Executor M → Action → UserResource → World S M → Outcome S M
  unfolding adopt_or_search
  search_again x a payload w =
      let (found, m) = M.search_users x.mas a.profile_id (user_name_filter a) w.mas in
      let w' : World S M = record w { mas = m } in
      elim found [
        | ok users ↦ adopt_or_search x a payload (user_name_filter a) users w'
        | err e ↦
            if is_mas_unauthorized_response e
            then (some (wrap_mas_unauthorized e), w')
            else (none, w')
      ]

  unfoldable pub handle_conflict : Executor M → Action → UserResource → World S M → Outcome S M
  unfolding search_again adopt_or_search
  handle_conflict x a payload w =
      let (found, m) = M.search_users x.mas a.profile_id (external_id_filter a) w.mas in
      let w' : World S M = record w { mas = m } in
      elim found [
        | ok users ↦ adopt_or_search x a payload (external_id_filter a) users w'
        | err e ↦
            if is_mas_unauthorized_response e
            then (some (wrap_mas_unauthorized e), w')
            else search_again x a payload w'
      ]

  -- The error of `CreateUser`.
  unfoldable pub create_failed :
      Executor M → Action → UserResource → Error → World S M → Outcome S M
  unfolding handle_conflict save_ignoring
  create_failed x a payload e w = elim (as_response e) [
    | none ↦ (some (wrapped "create MAS user" e), w)
    | some r ↦
        if nat_beq r.status_code 401
        then (some (wrap_mas_unauthorized e), w)
        else if nat_beq r.status_code 409
        then handle_conflict x a payload w
        else save_ignoring a (failed_entry a "" no_snapshot (failure_text r)) w
  ]

  -- `case ActionCreate`
  unfoldable pub execute_create : Executor M → Action → UserResource → World S M → Outcome S M
  unfolding create_failed save save_wrapping
  execute_create x a payload w =
      if x.dry_run
      then save a (synced_entry a ("dryrun-" <> a.user.id) payload) w
      else (let (created, m) = M.create_user x.mas a.profile_id payload w.mas in
          let w' : World S M = record w { mas = m } in
          elim created [
            | ok mas_id ↦ save_wrapping "store correlation" a (synced_entry a mas_id payload) w'
            | err e ↦ create_failed x a payload e w'
          ])

  -- The error of `UpdateUser`.
  unfoldable pub put_failed : Action → Error → World S M → Outcome S M
  unfolding save_wrapping
  put_failed a e w = elim (as_response e) [
    | none ↦ (some (wrapped "update MAS user" e), w)
    | some r ↦
        if nat_beq r.status_code 401
        then (some (wrap_mas_unauthorized e), w)
        else save_wrapping "record update failure" a
            (failed_entry a a.existing_mas a.state_last_applied (failure_text r)) w
  ]

  unfoldable pub perform_put : Executor M → Action → UserResource → World S M → Outcome S M
  unfolding put_failed save
  perform_put x a payload w =
      let (failed, m) = M.update_user x.mas a.profile_id a.existing_mas payload w.mas in
      let w' : World S M = record w { mas = m } in
      elim failed [
        | none ↦ save a (synced_entry a a.existing_mas payload) w'
        | some e ↦ put_failed a e w'
      ]

  -- The error of `PatchUser` in an update.
  unfoldable pub patch_failed : Executor M → Action → UserResource → Error → World S M → Outcome S M
  unfolding perform_put save_wrapping
  patch_failed x a payload e w = elim (as_response e) [
    | none ↦ (some (wrapped "patch MAS user" e), w)
    | some r ↦
        if nat_beq r.status_code 404
        then perform_put x a payload w
        else if nat_beq r.status_code 401
        then (some (wrap_mas_unauthorized e), w)
        else save_wrapping "record patch failure" a
            (failed_entry a a.existing_mas a.state_last_applied (failure_text r)) w
  ]

  unfoldable pub send_patch :
      Executor M → Action → UserResource → Snapshot → List PatchOperation → World S M → Outcome S M
  unfolding patch_failed save
  send_patch x a payload next ops w =
      let (failed, m) = M.patch_user x.mas a.profile_id a.existing_mas ops w.mas in
      let w' : World S M = record w { mas = m } in
      elim failed [
        | none ↦ save a (patched_entry a next) w'
        | some e ↦ patch_failed x a payload e w'
      ]

  unfoldable pub update_with_patch : Executor M → Action → UserResource → World S M → Outcome S M
  unfolding send_patch perform_put save
  update_with_patch x a payload w =
      if is_zero a.state_last_applied
      then perform_put x a payload w
      else (let (next, ops) = diff_to_patch a.state_last_applied payload a.profile_id in
          if is_nil ops
          then (if a.state_status == status_deactivated
              then save a (patched_entry a a.state_last_applied) w
              else (none, w))
          else send_patch x a payload next ops w)

  -- `case ActionUpdate`
  unfoldable pub execute_update : Executor M → Action → UserResource → World S M → Outcome S M
  unfolding update_with_patch
  execute_update x a payload w =
      if a.existing_mas == ""
      then (some (message "missing MAS ID for update"), w)
      else if not x.allow_updates
      then (none, w)
      else if x.dry_run
      then (none, w)
      else update_with_patch x a payload w

  -- The error of `PatchUser` in a deactivation.
  unfoldable pub deactivate_failed : Action → Error → World S M → Outcome S M
  unfolding save save_wrapping
  deactivate_failed a e w = elim (as_response e) [
    | none ↦ (some (wrapped "deactivate MAS user" e), w)
    | some r ↦
        if nat_beq r.status_code 401
        then (some (wrap_mas_unauthorized e), w)
        else if nat_beq r.status_code 404
        then save a (tombstone a) w
        else save_wrapping "record deactivate failure" a
            (failed_entry a a.existing_mas a.state_last_applied (failure_text r)) w
  ]

  -- The method `deactivate`.
  unfoldable pub execute_deactivate : Executor M → Action → World S M → Outcome S M
  unfolding deactivate_failed save
  execute_deactivate x a w =
      if a.existing_mas == ""
      then (some (message "missing MAS ID for deactivate"), w)
      else if not x.allow_updates
      then (none, w)
      else if x.dry_run
      then save a (tombstone a) w
      else (let (failed, m) = M.patch_user x.mas a.profile_id a.existing_mas deactivate_ops w.mas in
          let w' : World S M = record w { mas = m } in
          elim failed [ none ↦ save a (tombstone a) w' | some e ↦ deactivate_failed a e w' ])
