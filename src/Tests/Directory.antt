-- ===== src/Tests/Directory.antt =====
-- The theorems on groups, pages and filters, at one directory.
use mas_iam_operator.Tests.Fixtures.{config, member_payloads, staff, directory}
use mas_iam_operator.Prelude.{List, [], ◌∷◌, ◌≡◌, refl, String, has, arith}
use mas_iam_operator.Prelude.Sort.{Distinct}
use mas_iam_operator.Errors.{ok}
use mas_iam_operator.Keycloak.Users.{User, map_users}
use mas_iam_operator.Keycloak.Groups.{
  GroupPayloads, group, nil, cons, flatten_groups, preorder, flatten_groups-preorder,
}
use mas_iam_operator.Bridge.Scope.{
  nothing_collected, new_user_scope, group_members, member_pages, add_page, find_group,
  resolve_group,
}
use mas_iam_operator.Bridge.Planner.{user_ids}
use mas_iam_operator.Bridge.Scope.Pages.{member_pages-eq-add_page}
use mas_iam_operator.Bridge.Scope.Members.{is_member, group_members_complete}

group_members_complete_example :
    (users : List User) × (group_members directory 1
        (new_user_scope [] "" ("staff" ∷ "/staff" ∷ []))
        tt
      ≡ (ok users, tt))
    × ((k : String)
        → has k (user_ids users)
          ≡ is_member config member_payloads (λ name. staff) k ("staff" ∷ "/staff" ∷ []))
    × Distinct (user_ids users)
unfolding new_user_scope resolve_group find_group
group_members_complete_example =
    group_members_complete directory config member_payloads (λ id first max s. refl) (λ name. staff)
      1 tt (new_user_scope [] "" ("staff" ∷ "/staff" ∷ []))
      (refl, omega arith, (refl, omega arith, tt))

member_pages-eq-add_page_example :
    member_pages directory 1 "staff" staff 0 nothing_collected tt
    ≡ (ok (add_page (map_users config (member_payloads "g1")) nothing_collected), tt)
member_pages-eq-add_page_example =
    member_pages-eq-add_page directory config member_payloads (λ id first max s. refl) "staff" staff
      tt 1 nothing_collected (omega arith)

abbrev tree : GroupPayloads
tree = cons (group staff (cons (group staff nil) nil)) (cons (group staff nil) nil)

flatten_groups-preorder_example : flatten_groups tree [] ≡ preorder tree
flatten_groups-preorder_example = flatten_groups-preorder tree
