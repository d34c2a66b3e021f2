-- ===== src/Bridge/Poller/Removed.antt =====
-- Deactivation of everybody who left the scope: `reconcileRemovals` in
-- services/scim-bridge/internal/bridge/poller.go.
use mas_iam_operator.Prelude.Dict
use mas_iam_operator.Prelude.{
  String, ◌≡◌, refl, sym, ap, ◌∙◌, Bool, true, false, not, ◌||◌, Option, none, some, List, [], ◌∷◌,
  ◌++◌, arith, ◌==◌, eq_iff, is_nil,
}
use mas_iam_operator.Errors.{ok}
use mas_iam_operator.State.Entry.{Entry, normalize_entry}
use mas_iam_operator.Bridge.Planner.{Action, plan_removals, user_ids, deactivate, removal, removals}
use mas_iam_operator.Bridge.Planner.Removals.{is_due, due_actions, for_user, for_user-plan_removals}
use mas_iam_operator.Bridge.Executor.Steps.{
  tombstone, Executor, deactivate_ops, World, execute_deactivate,
}
use mas_iam_operator.Bridge.Executor.Frame.{execute-frame}
use mas_iam_operator.Bridge.Executor.Deactivation.{lookup-deactivate, is_gone}
use mas_iam_operator.Bridge.Poller.{execute_all, reconcile_removals}
use mas_iam_operator.State.Api.{Store, IsLawful}
use mas_iam_operator.Prelude.Dict.{Dict, keys}
use mas_iam_operator.Mas.Api.{MasApi}
use mas_iam_operator.Bridge.Executor.{execute}
use mas_iam_operator.Keycloak.Users.{User}
use mas_iam_operator.Prelude.Sort.{sort_strings}

-- The entry says that the user is deactivated.
abbrev pub IsTombstone : Option Entry → Type 0
IsTombstone none = ⊥
IsTombstone (some e) = e.status ≡ "deactivated"

-- Every action is the deactivation of a user with a MAS identity.
abbrev pub AllDeactivate : List Action → Type 0
AllDeactivate [] = Unit
AllDeactivate (a ∷ actions) =
    (a.action_type ≡ deactivate) × ((a.existing_mas == "") ≡ false) × AllDeactivate actions

-- An action is for the user.
abbrev pub targets : String → List Action → Bool
targets k [] = false
targets k (a ∷ actions) = (a.user.id == k) || targets k actions

targets-for_user :
    (k : String) (actions : List Action) → targets k actions ≡ not (is_nil (for_user k actions))
unfolding for_user
targets-for_user k [] = refl
targets-for_user k (a ∷ actions) = ground (arith, targets-for_user k actions)

due-due_actions :
    (present : List String) (k : String) (o : Option Entry)
    → not (is_nil (due_actions present k o)) ≡ is_due present k o
due-due_actions present k none = refl
due-due_actions present k (some e) = ground arith

tombstone-not-due :
    (present : List String) (k : String) (o : Option Entry)
    → IsTombstone o
    → is_due present k o ≡ false
tombstone-not-due present k none h = absurd h
tombstone-not-due present k (some e) h = ground (arith, ap (λ t. t == "deactivated") h)

removal-AllDeactivate :
    (present : List String) (k : String) (o : Option Entry) (rest : List Action)
    → AllDeactivate rest
    → AllDeactivate (removal present k o ++ rest)
unfolding removal
removal-AllDeactivate present k none rest h = h
removal-AllDeactivate present k (some e) rest h = ground arith

removals-AllDeactivate :
    (present : List String) (entries : Dict Entry) (ids : List String)
    → AllDeactivate (removals present entries ids)
unfolding removals
removals-AllDeactivate present entries [] = tt
removals-AllDeactivate present entries (k ∷ ids) =
    removal-AllDeactivate present k (Dict.lookup k entries) _
      (removals-AllDeactivate present entries ids)

-- The entry of a user after the actions: a tombstone if one was for the user, else the one before.
abbrev pub IsResult : Bool → Option Entry → Option Entry → Type 0
IsResult true before after = IsTombstone after
IsResult false before after = after ≡ before

IsResult-step :
    (here later : Bool) (o o' o'' : Option Entry)
    → (here ≡ true → IsTombstone o')
    → (here ≡ false → o' ≡ o)
    → IsResult later o' o''
    → IsResult (here || later) o o''
IsResult-step true true o o' o'' t f r = r
IsResult-step true false o o' o'' t f r = rw r (t refl)
IsResult-step false true o o' o'' t f r = r
IsResult-step false false o o' o'' t f r = r ∙ f refl

IsResult-not-due :
    (present : List String) (k : String) (due : Bool) (o o' : Option Entry)
    → due ≡ is_due present k o
    → IsResult due o o'
    → is_due present k o' ≡ false
IsResult-not-due present k true o o' q r = tombstone-not-due present k o' r
IsResult-not-due present k false o o' q r = rw r (sym q)

execute-deactivate :
    (S : Store) (M : MasApi) (x : Executor M) (a : Action) (w : World S M)
    → a.action_type ≡ deactivate
    → execute S M x a w ≡ execute_deactivate S M x a w
unfolding execute
execute-deactivate S M x a w t = ground arith

module _ (S : Store) (M : MasApi) (d : String) (L : IsLawful S d) (x : Executor M)
    (live : x.dry_run ≡ false) (allowed : x.allow_updates ≡ true)
    (saves : (st : S.State) (k : String) (e : Entry) → (S.save st k e).0 ≡ none)
    (accepts : (p id : String) (m : M.State)
      → is_gone (M.patch_user x.mas p id deactivate_ops m).0 ≡ true) where
  tombstone-IsTombstone : (a : Action) → IsTombstone (some (normalize_entry (tombstone a) d))
  unfolding normalize_entry
  tombstone-IsTombstone a = ground arith

  execute-IsTombstone :
      (a : Action) (w : World S M)
      → a.action_type ≡ deactivate
      → (a.existing_mas == "") ≡ false
      → IsTombstone (S.lookup (execute S M x a w).1.store a.user.id)
  execute-IsTombstone a w t n = rw (execute-deactivate S M x a w t) (
      rw (lookup-deactivate S M d L x a w live allowed n)
        (rw (accepts a.profile_id a.existing_mas w.mas) (tombstone-IsTombstone a)))

  execute-none :
      (a : Action) (w : World S M)
      → a.action_type ≡ deactivate
      → (a.existing_mas == "") ≡ false
      → (execute S M x a w).0 ≡ none
  unfolding execute execute_deactivate
  execute-none a w t n =
      ground
        (arith, accepts a.profile_id a.existing_mas w.mas, saves w.store a.user.id (tombstone a))

  execute_all-IsResult :
      (k : String) (actions : List Action) (w : World S M)
      → AllDeactivate actions
      → ((execute_all S M x actions w).0 ≡ none)
        × IsResult
            (targets k actions)
            (S.lookup w.store k)
            (S.lookup (execute_all S M x actions w).1.store k)
  unfolding execute_all
  execute_all-IsResult k [] w h = (refl, refl)
  execute_all-IsResult k (a ∷ actions) w h =
      let rest = execute_all-IsResult k actions (execute S M x a w).1 h.2 in
      rw (execute-none a w h.0 h.1, execute_all)
        (
          rest.0,
          IsResult-step (a.user.id == k) (targets k actions) (S.lookup w.store k)
              (S.lookup (execute S M x a w).1.store k) _
              (λ e. rw (← (eq_iff a.user.id k).0 e) (execute-IsTombstone a w h.0 h.1))
              (λ e. execute-frame S M d L x a k e w) rest.1,
        )

  -- With updates enabled and no dry run, if MAS accepts the requests that deactivate users, or has
  -- no such user, and the entries can be listed and the store can be written, then a pass over the
  -- removals ends with no error, and after it nobody is due for deactivation any more: everybody who
  -- was is a tombstone, and every other entry is as before.
  pub reconcile_removals_complete :
      (scoped : List User) (w : World S M) (m : Dict Entry)
      → S.list w.store ≡ ok m
      → (k : String)
      → let r = reconcile_removals S M x scoped w in
        (r.0 ≡ none)
        × (is_due (user_ids scoped) k (S.lookup r.1.store k) ≡ false)
        × IsResult
            (is_due (user_ids scoped) k (S.lookup w.store k))
            (S.lookup w.store k)
            (S.lookup r.1.store k)
  unfolding reconcile_removals plan_removals
  reconcile_removals_complete scoped w m e k =
      let present = user_ids scoped in
      let actions = removals present m (sort_strings (keys m)) in
      let planned : plan_removals S scoped w.store ≡ ok actions = rw (e, plan_removals) refl in
      let due : targets k actions ≡ is_due present k (S.lookup w.store k) =
        targets-for_user k actions
        ∙ ap (λ t. not (is_nil t)) (for_user-plan_removals S d L scoped w.store actions planned k)
        ∙ due-due_actions present k (S.lookup w.store k) in
      let (ended, result) =
        execute_all-IsResult k actions w
          (removals-AllDeactivate present m (sort_strings (keys m))) in
      rw (planned, reconcile_removals)
        (
          ended,
          IsResult-not-due present k (targets k actions) (S.lookup w.store k) _ due result,
          rw due at result,
        )
