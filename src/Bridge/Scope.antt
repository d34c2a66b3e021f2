-- ===== src/Bridge/Scope.antt =====
-- services/scim-bridge/internal/bridge/scope.go
pub mod Pages
pub mod Members
pub mod Filtered
use mas_iam_operator.Prelude.{
  ℕ, zero, suc, ◌+◌, String, ◌<>◌, Bool, ◌&&◌, ◌||◌, Option, none, some, List, [], ◌∷◌, ◌++◌, ◌==◌,
  starts_with, ltb, if◌then◌else◌, is_nil, is_some, has, keep,
}
use mas_iam_operator.Prelude.Text.{after_last, is_slash}
use mas_iam_operator.Prelude.Dict.{Dict}
use mas_iam_operator.Errors.{message, wrap_result, Exec, pure, fail, ◌>>=◌}
use mas_iam_operator.Keycloak.Users.{User}
use mas_iam_operator.Keycloak.Groups.{Group}
use mas_iam_operator.Keycloak.Client.{ListUsersParams}
use mas_iam_operator.Prelude.Dict

-- The interface `keycloakSource`; `State` is that of the server and the network.
pub record KeycloakSource : Type 1 where
  pub State : Type 0
  pub list_users : ListUsersParams → Exec State (List User)
  pub list_groups : String → Exec State (List Group)
  pub list_group_members : String → ℕ → ℕ → Exec State (List User × ℕ)
  pub realm : String

abbrev pub group_members_page_size : ℕ
group_members_page_size = 50

pub record UserScope : Type 0 where
  pub include_usernames : Dict (Unit {0})
  pub include_prefix : String
  pub include_groups : List String

-- A map with an empty struct for each text.
unfoldable pub to_set : List String → Dict (Unit {0})
to_set [] = []
to_set (k ∷ ks) = Dict.insert k tt (to_set ks)

unfoldable pub new_user_scope : List String → String → List String → UserScope
unfolding to_set
new_user_scope usernames prefix groups = record {
  include_usernames = to_set usernames;
  include_prefix = prefix;
  include_groups = groups;
}

-- The loop variables `seen` and `members`.
pub record Collected : Type 0 where
  pub seen : List String
  pub members : List User

abbrev pub nothing_collected : Collected
nothing_collected = record { seen = []; members = [] }

unfoldable pub add_page : List User → Collected → Collected
add_page [] acc = acc
add_page (u ∷ page) acc = add_page page (
    if has u.id acc.seen
    then acc
    else record { seen = u.id ∷ acc.seen; members = acc.members ++ (u ∷ []) })

-- The text by which a name or a path is searched.
unfoldable pub search_text : String → String
search_text name = elim (after_last is_slash name) [ some last ↦ last | none ↦ name ]

unfoldable pub find_group : String → List Group → Option Group
find_group name [] = none
find_group name (g ∷ groups) =
    if (g.name == name) || (g.path == name) then some g else find_group name groups

-- `%q` of a text is its text between quotation marks, where nothing in it is to be escaped.
abbrev pub quoted : String → String
quoted s = "\"" <> (s <> "\"")

-- `if err != nil { return ..., fmt.Errorf("<text>: %w", err) }`
abbrev pub wrapping {ℓ} : {S A : Type ℓ} → String → Exec S A → Exec S A
wrapping text m s = (wrap_result text (m s).0, (m s).1)

module _ (kc : KeycloakSource) where
  unfoldable pub resolve_group : String → Exec kc.State Group
  unfolding search_text
  resolve_group name = do
    groups ← wrapping ("resolve group " <> quoted name) (kc.list_groups (search_text name))
    elim (find_group name groups) [
      | some g ↦ pure g
      | none ↦ fail (message ("group " <> (quoted name <> (" not found in realm " <> kc.realm))))
    ]

  -- The inner loop, from the offset `first`. Each round that goes on has read a full page.
  unfoldable pub member_pages : ℕ → String → Group → ℕ → Collected → Exec kc.State Collected
  unfolding add_page
  member_pages zero name group first acc = fail (message "out of fuel")
  member_pages (suc fuel) name group first acc = do
    (page, raw_count) ←
        wrapping ("list members of group " <> quoted name)
          (kc.list_group_members group.id first group_members_page_size)
    let rest = member_pages fuel name group (first + group_members_page_size) (add_page page acc)
    if ltb raw_count group_members_page_size then pure (add_page page acc) else rest

  -- The outer loop.
  unfoldable pub collect_groups : ℕ → List String → Collected → Exec kc.State Collected
  unfolding member_pages resolve_group
  collect_groups fuel [] acc = pure acc
  collect_groups fuel (name ∷ names) acc = do
    group ← resolve_group name
    acc' ← member_pages fuel name group 0 acc
    collect_groups fuel names acc'

  -- The fuel bounds the number of pages of one group.
  unfoldable pub group_members : ℕ → UserScope → Exec kc.State (List User)
  unfolding collect_groups
  group_members fuel scope = do
    acc ← collect_groups fuel scope.include_groups nothing_collected
    pure acc.members

  unfoldable pub candidates : ℕ → UserScope → Exec kc.State (List User)
  unfolding group_members
  candidates fuel scope =
      if is_nil scope.include_groups
      then wrapping "list users" (kc.list_users (record { first = 0; max = 50 }))
      else group_members fuel scope

-- The two tests of the loop in `filter`.
unfoldable pub in_scope : UserScope → User → Bool
in_scope scope user =
    (is_nil scope.include_usernames || is_some (Dict.lookup user.username scope.include_usernames))
    && ((scope.include_prefix == "") || starts_with user.username scope.include_prefix)

unfoldable pub filter : UserScope → List User → List User
unfolding in_scope
filter scope users =
    if is_nil scope.include_usernames && (scope.include_prefix == "")
    then users
    else keep (in_scope scope) users
