-- ===== src/Tests/Sync.antt =====
-- The theorems on planning and executing, at one directory and one MAS server.
use mas_iam_operator.Tests.Fixtures.{
  ascii, store, mas, refused, broken, executor, ada, bob, snapshot, entry, entries, world, resolver,
  resolution, removal_of_bob, update_of_ada, creation_of_ada, directory, user,
}
use mas_iam_operator.Prelude.{◌≡◌, refl, ◌≢◌, ◌↔◌, true, false, none, some, List, [], ◌∷◌, has}
use mas_iam_operator.Errors.{mas_unauthorized, as_response, is_unauthorized, ok, ok_inj}
use mas_iam_operator.State.Entry.{normalize_entry, is_zero}
use mas_iam_operator.State.Api.{IsLawful}
use mas_iam_operator.State.Memory.{memory_store, memory_store-IsLawful}
use mas_iam_operator.Mas.Payload.{build_user_payload}
use mas_iam_operator.Bridge.Scope.{new_user_scope, candidates, filter, KeycloakSource, find_group}
use mas_iam_operator.Keycloak.Users.{User}
use mas_iam_operator.Bridge.Patch.{snapshot_from_payload, diff_to_patch}
use mas_iam_operator.Bridge.Patch.Effect.{
  apply_ops, view, diff_to_patch-reaches, diff_to_patch-eq-nil,
}
use mas_iam_operator.Bridge.Planner.{update_action, plan, plan_removals, user_ids, create, update}
use mas_iam_operator.Bridge.Planner.Plan.{HasIdentity, plan-frame, plan-HasIdentity}
use mas_iam_operator.Bridge.Planner.Removals.{is_due, due_actions, for_user, for_user-plan_removals}
use mas_iam_operator.Bridge.Executor.{execute}
use mas_iam_operator.Bridge.Executor.Steps.{
  execute_deactivate, failed_entry, patched_entry, execute_update,
}
use mas_iam_operator.Bridge.Executor.Frame.{execute-frame, execute-dry_run, execute-no_updates}
use mas_iam_operator.Bridge.Executor.Refused.{execute-unauthorized}
use mas_iam_operator.Bridge.Executor.Deactivation.{lookup-deactivate}
use mas_iam_operator.Bridge.Executor.Identity.{HasIds, IsNamed, execute-IsNamed}
use mas_iam_operator.Bridge.Executor.Convergence.{update_converges}
use mas_iam_operator.Bridge.Poller.{reconcile_removals, run_once, is_held_back}
use mas_iam_operator.Bridge.Poller.Removed.{IsResult, reconcile_removals_complete}
use mas_iam_operator.Bridge.Profile.{resolve}
use mas_iam_operator.Prelude.Text.{to_lower, trim_space}
use mas_iam_operator.Bridge.Poller.Scoped.{run_once-frame}
use mas_iam_operator.Bridge.Poller.Complete.{run_once-is_due}
use mas_iam_operator.Prelude.Sort.{sort_strings}
use mas_iam_operator.Prelude.Dict.{keys}
use mas_iam_operator.State.Memory
use mas_iam_operator.Prelude.Dict

abbrev lawful : IsLawful store "acme"
lawful = memory_store-IsLawful "acme"

reconcile_removals_complete_example :
    let r =
      reconcile_removals store (mas none) (executor none false true) (ada ∷ []) (world none) in
    (r.0 ≡ none)
    × (is_due ("k1" ∷ []) "k2" (store.lookup r.1.store "k2") ≡ false)
    × IsResult true (some (entry "m2" "bob")) (store.lookup r.1.store "k2")
unfolding Memory.save user_ids Dict.lookup reconcile_removals has
reconcile_removals_complete_example =
    reconcile_removals_complete store (mas none) "acme" lawful (executor none false true) refl refl
      (λ st k e. refl) (λ p id m. refl) (ada ∷ []) (world none) (Memory.copy_entries entries) refl
      "k2"

update_converges_example :
    execute store
      (mas none)
      (executor none false true)
      (update_action ada resolution
        (patched_entry update_of_ada (snapshot_from_payload (build_user_payload ada) "acme")))
      (world none)
    ≡ (none, world none)
unfolding Dict.lookup execute execute_update is_zero diff_to_patch build_user_payload Memory.save
    Dict.insert normalize_entry
update_converges_example =
    update_converges store (mas none) "acme" lawful (executor none false true) refl refl ada
      resolution (λ p id ops m. refl) (λ p id u m. refl) (entry "m1" "ada")
      (patched_entry update_of_ada (snapshot_from_payload (build_user_payload ada) "acme"))
      (world none) refl refl refl (world none)

diff_to_patch-reaches_example :
    apply_ops (diff_to_patch snapshot (build_user_payload ada) "acme").1 (view snapshot)
    ≡ some (view (diff_to_patch snapshot (build_user_payload ada) "acme").0)
diff_to_patch-reaches_example = diff_to_patch-reaches snapshot (build_user_payload ada) "acme"

diff_to_patch-eq-nil_example :
    ((diff_to_patch snapshot (build_user_payload ada) "acme").1 ≡ [])
    ↔ (view snapshot ≡ view (snapshot_from_payload (build_user_payload ada) "acme"))
diff_to_patch-eq-nil_example = diff_to_patch-eq-nil snapshot (build_user_payload ada) "acme"

for_user-plan_removals_example :
    for_user "k2" (removal_of_bob ∷ [])
    ≡ due_actions (user_ids (ada ∷ [])) "k2" (store.lookup entries "k2")
unfolding plan_removals sort_strings Dict.keys Memory.copy_entries Dict.insert Dict.lookup has
for_user-plan_removals_example =
    for_user-plan_removals store "acme" lawful (ada ∷ []) entries (removal_of_bob ∷ []) refl "k2"

lookup-deactivate_example :
    store.lookup
      (execute_deactivate store
        (mas (some broken))
        (executor (some broken) false true)
        removal_of_bob
        (world (some broken))).1.store
      "k2"
    ≡ some (normalize_entry (failed_entry removal_of_bob "m2" snapshot "500: down") "acme")
unfolding as_response
lookup-deactivate_example =
    lookup-deactivate store (mas (some broken)) "acme" lawful (executor (some broken) false true)
      removal_of_bob (world (some broken)) refl refl refl

execute-frame_example :
    store.lookup
      (execute store (mas none) (executor none false true) removal_of_bob (world none)).1.store
      "k1"
    ≡ some (entry "m1" "ada")
unfolding Dict.lookup
execute-frame_example =
    execute-frame store (mas none) "acme" lawful (executor none false true) removal_of_bob "k1" refl
      (world none)

execute-dry_run_example :
    (execute store (mas none) (executor none true true) creation_of_ada (world none)).1.mas ≡ 0
execute-dry_run_example =
    execute-dry_run store (mas none) (executor none true true) creation_of_ada (world none) refl

not_create : update ≢ create
not_create e = cc

execute-no_updates_example :
    (execute store (mas none) (executor none false false) update_of_ada (world none)).1 ≡ world none
execute-no_updates_example =
    execute-no_updates store (mas none) (executor none false false) update_of_ada (world none) refl
      not_create

execute-unauthorized_example :
    (execute store
      (mas (some refused))
      (executor (some refused) false true)
      update_of_ada
      (world (some refused))).1.store
    ≡ entries
unfolding execute execute_update is_zero diff_to_patch build_user_payload as_response
    is_unauthorized
execute-unauthorized_example =
    execute-unauthorized store (mas (some refused)) "acme" lawful
      (executor (some refused) false true) update_of_ada (world (some refused))
      (mas_unauthorized refused) refl refl

abbrev has_ids : HasIds (mas none)
has_ids = record { created = λ c p r m. refl; found = λ c p f m. tt }

execute-IsNamed_example : IsNamed (
    store.lookup
      (execute store (mas none) (executor none false true) creation_of_ada (world none)).1.store
      "k1")
unfolding Dict.lookup
execute-IsNamed_example =
    execute-IsNamed store (mas none) "acme" lawful has_ids (executor none false true)
      creation_of_ada (world none) (λ live. refl)

plan-frame_example :
    store.lookup (plan store resolver (ada ∷ user "k3" "eve" ∷ []) entries).1 "k2"
    ≡ some (entry "m2" "bob")
unfolding has user_ids Dict.lookup
plan-frame_example =
    plan-frame store "acme" lawful resolver (ada ∷ user "k3" "eve" ∷ []) entries "k2" refl

plan-HasIdentity_example :
    HasIdentity "m1" "acme" (store.lookup (plan store resolver (ada ∷ bob ∷ []) entries).1 "k1")
unfolding Dict.lookup
plan-HasIdentity_example =
    plan-HasIdentity store "acme" lawful resolver (ada ∷ bob ∷ []) entries "k1" "m1" "acme" refl
      (refl, refl)

listed :
    (users : List User)
    → (candidates directory 1 (new_user_scope [] "a" []) tt).0 ≡ ok users
    → has "k2" (user_ids (filter (new_user_scope [] "a" []) users)) ≡ false
unfolding candidates new_user_scope has user_ids filter
listed users e = rw (← ok_inj e) refl

run_once-frame_example :
    store.lookup
      (run_once store
        (mas none)
        resolver
        (executor none false true)
        directory
        1
        (new_user_scope [] "a" [])
        tt
        (world none)).0.1.store
      "k2"
    ≡ some (entry "m2" "bob")
unfolding new_user_scope Dict.lookup
run_once-frame_example =
    run_once-frame store (mas none) "acme" lawful (executor none false true) "k2" resolver directory
      1 (new_user_scope [] "a" []) tt (world none) refl listed

memory_store-IsLawful_example : IsLawful (memory_store "acme") "acme"
memory_store-IsLawful_example = memory_store-IsLawful "acme"

-- Ada is the only member of its only group.
abbrev small_directory : KeycloakSource
small_directory = record directory { list_group_members = λ id first max s. (ok (ada ∷ [], 1), s) }

run_once-is_due_example :
    is_due (user_ids (filter (new_user_scope [] "" ("staff" ∷ [])) (ada ∷ []))) "k2" (
      store.lookup
        (run_once store
          (mas none)
          resolver
          (executor none false true)
          small_directory
          1
          (new_user_scope [] "" ("staff" ∷ []))
          tt
          (world none)).0.1.store
        "k2")
    ≡ false
unfolding Memory.save new_user_scope candidates find_group has run_once plan filter resolve to_lower
    trim_space Dict.lookup is_held_back execute execute_update is_zero diff_to_patch
    build_user_payload Dict.insert normalize_entry plan_removals sort_strings keys
    Memory.copy_entries execute_deactivate user_ids as_response
run_once-is_due_example =
    run_once-is_due store (mas none) "acme" lawful (executor none false true) refl refl
      (λ st k e. refl) (λ st. (Memory.copy_entries st, refl)) (λ p id m. refl) resolver
      (new_user_scope [] "" ("staff" ∷ [])) refl small_directory 1 tt (world none) (ada ∷ []) refl
      refl "k2"
