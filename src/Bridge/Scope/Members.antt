-- ===== src/Bridge/Scope/Members.antt =====
-- The members of the configured groups: `groupMembers` in
-- services/scim-bridge/internal/bridge/scope.go.
use mas_iam_operator.Prelude.{
  ℕ, ◌*◌, ◌<◌, String, ◌≡◌, refl, sym, ◌∙◌, inl, inr, Bool, false, ◌||◌, List, [], ◌∷◌, ◌++◌, arith,
  eq_iff, Bool-cases, length, has, has-append,
}
use mas_iam_operator.Errors.{ok}
use mas_iam_operator.Prelude.Sort.{Distinct}
use mas_iam_operator.Config.Settings.{KeycloakConfig}
use mas_iam_operator.Keycloak.Users.{User, UserPayload, map_users}
use mas_iam_operator.Keycloak.Groups.{Group}
use mas_iam_operator.Bridge.Planner.{user_ids}
use mas_iam_operator.Bridge.Scope.{
  KeycloakSource, UserScope, Collected, nothing_collected, add_page, resolve_group, collect_groups,
  group_members,
}
use mas_iam_operator.Bridge.Scope.Pages.{ServesPages, member_pages-eq-add_page}

user_ids-append : (xs ys : List User) → user_ids (xs ++ ys) ≡ user_ids xs ++ user_ids ys
unfolding user_ids
user_ids-append [] ys = refl
user_ids-append (u ∷ xs) ys = ground (arith, user_ids-append xs ys)

append-Distinct :
    (xs : List String) (k : String) → has k xs ≡ false → Distinct xs → Distinct (xs ++ (k ∷ []))
unfolding has
append-Distinct [] k h u = (refl, tt)
append-Distinct (x ∷ xs) k h (fresh, u) =
    ground (arith, append-Distinct xs k, has-append x xs (k ∷ []), eq_iff x k, eq_iff k x)

-- `seen` and `members` hold the same identities, each member once.
pub record IsCollected (acc : Collected) : Type 0 where
  pub same : (k : String) → has k acc.seen ≡ has k (user_ids acc.members)
  pub distinct : Distinct (user_ids acc.members)

nothing-IsCollected : IsCollected nothing_collected
unfolding user_ids
nothing-IsCollected = record { same = λ k. refl; distinct = tt }

add_user-IsCollected :
    (u : User) (acc : Collected)
    → IsCollected acc
    → has u.id acc.seen ≡ false
    → IsCollected (record { seen = u.id ∷ acc.seen; members = acc.members ++ (u ∷ []) })
unfolding has user_ids
add_user-IsCollected u acc v h = record {
  same = λ k.
      rw (user_ids-append acc.members (u ∷ []))
        (ground (arith, has-append k (user_ids acc.members) (u.id ∷ []), v.same k));
  distinct =
      rw (user_ids-append acc.members (u ∷ []))
        (append-Distinct (user_ids acc.members) u.id (sym (v.same u.id) ∙ h) v.distinct);
}

add_page-IsCollected :
    (page : List User) (acc : Collected) → IsCollected acc → IsCollected (add_page page acc)
unfolding add_page
add_page-IsCollected [] acc v = v
add_page-IsCollected (u ∷ page) acc v = elim (Bool-cases (has u.id acc.seen)) [
  | inl e ↦ rw e (add_page-IsCollected page acc v)
  | inr e ↦ rw e (add_page-IsCollected page _ (add_user-IsCollected u acc v e))
]

-- The identities seen after a page.
has-seen-add_page :
    (k : String) (page : List User) (acc : Collected)
    → has k (add_page page acc).seen ≡ (has k acc.seen || has k (user_ids page))
unfolding add_page has user_ids
has-seen-add_page k [] acc = ground arith
has-seen-add_page k (u ∷ page) acc = ground (
  arith,
  has-seen-add_page k page acc,
  has-seen-add_page k page (record { seen = u.id ∷ acc.seen; members = acc.members ++ (u ∷ []) }),
  eq_iff u.id k,
)

-- Whether the identity is among the mapped members of one of the groups.
pub is_member :
    KeycloakConfig → (String → List UserPayload) → (String → Group) → String → List String → Bool
is_member cfg members group_of k [] = false
is_member cfg members group_of k (name ∷ names) =
    has k (user_ids (map_users cfg (members (group_of name).id)))
    || is_member cfg members group_of k names

module _ (kc : KeycloakSource) (cfg : KeycloakConfig) (members : String → List UserPayload)
    (serves : ServesPages kc cfg members) (group_of : String → Group) (fuel : ℕ)
    (s : kc.State) where
  -- Each name stands for a group whose full pages are fewer than the fuel.
  abbrev pub AllResolve : List String → Type 0
  AllResolve [] = Unit
  AllResolve (name ∷ names) =
      (resolve_group kc name s ≡ (ok (group_of name), s))
      × (length (members (group_of name).id) < 50 * fuel)
      × AllResolve names

  -- The members of the groups, added one group after the other.
  add_groups : List String → Collected → Collected
  add_groups [] acc = acc
  add_groups (name ∷ names) acc =
      add_groups names (add_page (map_users cfg (members (group_of name).id)) acc)

  collect-eq-add_groups :
      (names : List String) (acc : Collected)
      → AllResolve names
      → collect_groups kc fuel names acc s ≡ (ok (add_groups names acc), s)
  unfolding collect_groups add_groups
  collect-eq-add_groups [] acc h = refl
  collect-eq-add_groups (name ∷ names) acc (r, b, h) =
      rw (r, collect_groups)
        (rw (member_pages-eq-add_page kc cfg members serves name (group_of name) s fuel acc b)
          (collect-eq-add_groups names _ h))

  add_groups-IsCollected :
      (names : List String) (acc : Collected) → IsCollected acc → IsCollected (add_groups names acc)
  unfolding add_groups
  add_groups-IsCollected [] acc v = v
  add_groups-IsCollected (name ∷ names) acc v =
      add_groups-IsCollected names _
        (add_page-IsCollected (map_users cfg (members (group_of name).id)) acc v)

  has-seen-add_groups :
      (k : String) (names : List String) (acc : Collected)
      → has k (add_groups names acc).seen
        ≡ (has k acc.seen || is_member cfg members group_of k names)
  unfolding add_groups is_member
  has-seen-add_groups k [] acc = ground arith
  has-seen-add_groups k (name ∷ names) acc = ground (
    arith,
    has-seen-add_groups k names (add_page (map_users cfg (members (group_of name).id)) acc),
    has-seen-add_page k (map_users cfg (members (group_of name).id)) acc,
  )

  -- If every configured name stands for a group, then the scoped candidates are exactly the members
  -- of the groups that the mapping keeps, whatever the number of pages, each of them once.
  pub group_members_complete :
      (scope : UserScope)
      → AllResolve scope.include_groups
      → (users : List User) × (group_members kc fuel scope s ≡ (ok users, s))
        × ((k : String)
            → has k (user_ids users) ≡ is_member cfg members group_of k scope.include_groups)
        × Distinct (user_ids users)
  unfolding group_members is_member has
  group_members_complete scope h =
      let v = add_groups-IsCollected scope.include_groups nothing_collected nothing-IsCollected in
      (
        (add_groups scope.include_groups nothing_collected).members,
        rw (collect-eq-add_groups scope.include_groups nothing_collected h, group_members) refl,
        λ k. sym (v.same k) ∙ has-seen-add_groups k scope.include_groups nothing_collected,
        v.distinct,
      )
