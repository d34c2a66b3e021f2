-- ===== src/Bridge/Scope/Pages.antt =====
-- Reading a group page by page: the inner loop of `groupMembers` in
-- services/scim-bridge/internal/bridge/scope.go.
use mas_iam_operator.Prelude.{
  take_of_short, drop-drop, take-append-drop, length-drop_full, dec_lt, ℕ, zero, suc, ◌+◌, ◌*◌, ◌≤◌,
  ◌<◌, String, ◌≡◌, refl, sym, ap, ◌∙◌, false, List, [], ◌∷◌, ◌++◌, arith, ltb, length, take, drop,
}
use mas_iam_operator.Errors.{ok}
use mas_iam_operator.Config.Settings.{KeycloakConfig}
use mas_iam_operator.Keycloak.Users.{User, UserPayload, map_users}
use mas_iam_operator.Keycloak.Groups.{Group}
use mas_iam_operator.Bridge.Scope.{KeycloakSource, Collected, add_page, member_pages}

map_users-append :
    (cfg : KeycloakConfig) (xs ys : List UserPayload)
    → map_users cfg (xs ++ ys) ≡ map_users cfg xs ++ map_users cfg ys
unfolding map_users
map_users-append cfg [] ys = refl
map_users-append cfg (u ∷ xs) ys = ground (arith, map_users-append cfg xs ys)

add_page-append :
    (xs ys : List User) (acc : Collected) → add_page (xs ++ ys) acc ≡ add_page ys (add_page xs acc)
unfolding add_page
add_page-append [] ys acc = refl
add_page-append (u ∷ xs) ys acc = add_page-append xs ys _

ltb-false : (n m : ℕ) → m ≤ n → ltb n m ≡ false
ltb-false n m h = ground arith

-- Keycloak serves the members of a group, which do not change while they are read, in pages: so
-- many members from an offset on, with federated users left out, and the size before that.
abbrev pub ServesPages :
    (kc : KeycloakSource) → KeycloakConfig → (String → List UserPayload) → Type 0
ServesPages kc cfg members =
    (id : String) (first max : ℕ) (s : kc.State)
    → kc.list_group_members id first max s ≡ (
      ok (
        map_users cfg (take max (drop first (members id))),
        length (take max (drop first (members id))),
      ),
      s,
    )

module _ (kc : KeycloakSource) (cfg : KeycloakConfig) (members : String → List UserPayload)
    (serves : ServesPages kc cfg members) (name : String) (group : Group) (s : kc.State) where
  abbrev from : ℕ → List UserPayload
  from first = drop first (members group.id)

  abbrev page : ℕ → List UserPayload
  page first = take 50 (from first)

  short_page :
      (fuel first : ℕ) (acc : Collected)
      → length (page first) < 50
      → member_pages kc (suc fuel) name group first acc s
        ≡ (ok (add_page (map_users cfg (from first)) acc), s)
  unfolding member_pages
  short_page fuel first acc h =
      rw (serves group.id first 50 s, member_pages)
        (rw (take_of_short 50 (from first) h) (ground arith))

  full_page :
      (fuel first : ℕ) (acc : Collected)
      → 50 ≤ length (page first)
      → member_pages kc (suc fuel) name group first acc s
        ≡ member_pages kc fuel name group (first + 50) (add_page (map_users cfg (page first)) acc) s
  unfolding member_pages
  full_page fuel first acc h =
      rw (serves group.id first 50 s, member_pages) (rw (ltb-false _ 50 h) refl)

  add_pages :
      (first : ℕ) (acc : Collected)
      → add_page (map_users cfg (from (first + 50))) (add_page (map_users cfg (page first)) acc)
        ≡ add_page (map_users cfg (from first)) acc
  add_pages first acc =
      sym (add_page-append (map_users cfg (page first)) (map_users cfg (from (first + 50))) acc)
      ∙ ap (λ t. add_page t acc)
          (sym (map_users-append cfg (page first) (from (first + 50)))
            ∙ ap (map_users cfg) (
                ap (λ t. page first ++ t) (sym (drop-drop first 50 (members group.id)))
                ∙ take-append-drop 50 (from first)))

  pages_from :
      (fuel first : ℕ) (acc : Collected)
      → length (from first) < 50 * fuel
      → member_pages kc fuel name group first acc s
        ≡ (ok (add_page (map_users cfg (from first)) acc), s)
  pages_from zero first acc h = absurd (omega arith)
  pages_from (suc fuel) first acc h = elim (dec_lt (length (page first)) 50) [
    | yes p ↦ short_page fuel first acc p
    | no p ↦
        let full : 50 ≤ length (page first) = omega arith in
        let left : length (from (first + 50)) + 50 ≡ length (from first) =
          rw (← drop-drop first 50 (members group.id)) (length-drop_full 50 (from first) full) in
        full_page fuel first acc full
        ∙ (pages_from fuel (first + 50) (add_page (map_users cfg (page first)) acc) (omega arith)
            ∙ ap (λ t. (ok t, s)) (add_pages first acc))
  ]

  -- With more fuel than the group has full pages, reading it page by page is adding all its
  -- members at once: none is missed, though a page may be short of federated users.
  pub member_pages-eq-add_page :
      (fuel : ℕ) (acc : Collected)
      → length (members group.id) < 50 * fuel
      → member_pages kc fuel name group 0 acc s
        ≡ (ok (add_page (map_users cfg (members group.id)) acc), s)
  member_pages-eq-add_page fuel acc h = pages_from fuel 0 acc h
