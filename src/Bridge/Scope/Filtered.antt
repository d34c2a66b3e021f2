-- ===== src/Bridge/Scope/Filtered.antt =====
-- The username filters: `filter` in services/scim-bridge/internal/bridge/scope.go.
use mas_iam_operator.Prelude.{
  String, ◌≡◌, refl, ap, inl, inr, Bool, true, false, ◌&&◌, ◌||◌, List, [], ◌∷◌, arith, ◌==◌,
  starts_with, eq_iff, eq_refl, Bool-cases, is_some, is_nil, keep, has,
}
use text.Mathlib.TextPositions.{starts_with-append}
use text.Mathlib.TextLemmas.{nil-append}
use mathlib.Core.Path.{subst}
use mas_iam_operator.Prelude.Dict.{lookup-insert}
use mas_iam_operator.Bridge.Scope.{to_set, new_user_scope, in_scope, filter}
use mas_iam_operator.Keycloak.Users.{User}
use mas_iam_operator.Prelude.Dict

lookup-to_set : (k : String) (ks : List String) → is_some (Dict.lookup k (to_set ks)) ≡ has k ks
unfolding to_set has Dict.lookup
lookup-to_set k [] = refl
lookup-to_set k (j ∷ ks) =
    ground (arith, lookup-insert k j tt (to_set ks), lookup-to_set k ks, eq_iff j k, eq_iff k j)

is_nil-insert :
    {V : Type 0} (k : String) (v : V) (m : Dict.Dict V) → is_nil (Dict.insert k v m) ≡ false
unfolding Dict.insert
is_nil-insert k v [] = refl
is_nil-insert k v ((j, w) ∷ m) = ground arith

is_nil-to_set : (ks : List String) → is_nil (to_set ks) ≡ is_nil ks
unfolding to_set
is_nil-to_set [] = refl
is_nil-to_set (k ∷ ks) = is_nil-insert k tt (to_set ks)

-- A user passes the configured filters: the allowlist, if there is one, and the prefix.
abbrev pub passes : List String → String → User → Bool
passes usernames prefix u =
    (is_nil usernames || has u.username usernames) && starts_with u.username prefix

starts_with_nil : (s : String) → starts_with s "" ≡ true
starts_with_nil s = subst (λ t. starts_with t "" ≡ true) (nil-append s) (starts_with-append "" s)

no_prefix : (prefix s : String) → ((prefix == "") || starts_with s prefix) ≡ starts_with s prefix
no_prefix prefix s = elim (Bool-cases (prefix == "")) [
  | inl e ↦ rw ((eq_iff prefix "").0 e) (ground (arith, eq_refl "", starts_with_nil s))
  | inr e ↦ ground (arith, e)
]

in_scope-passes :
    (usernames : List String) (prefix : String) (groups : List String) (u : User)
    → in_scope (new_user_scope usernames prefix groups) u ≡ passes usernames prefix u
unfolding in_scope new_user_scope
in_scope-passes usernames prefix groups u =
    rw (is_nil-to_set usernames, lookup-to_set u.username usernames, no_prefix prefix u.username)
      refl

keep-congr :
    (p q : User → Bool) (users : List User) → ((u : User) → p u ≡ q u) → keep p users ≡ keep q users
keep-congr p q [] h = refl
keep-congr p q (u ∷ users) h = ground (arith, h u, keep-congr p q users h)

keep_all : (p : User → Bool) (users : List User) → ((u : User) → p u ≡ true) → users ≡ keep p users
keep_all p [] h = refl
keep_all p (u ∷ users) h = rw (h u) (ap (λ t. u ∷ t) (keep_all p users h))

no_filter :
    (usernames : List String) (prefix : String)
    → (is_nil usernames && (prefix == "")) ≡ true
    → (u : User) → passes usernames prefix u ≡ true
no_filter usernames prefix e u = ground (arith, no_prefix prefix u.username)

-- The filters keep exactly the users whose name is on the allowlist, if one is configured, and
-- begins with the prefix, in the order of Keycloak; with no filter configured they keep all.
pub filter-eq-keep :
    (usernames : List String) (prefix : String) (groups : List String) (users : List User)
    → filter (new_user_scope usernames prefix groups) users ≡ keep (passes usernames prefix) users
unfolding filter new_user_scope
filter-eq-keep usernames prefix groups users =
    rw (is_nil-to_set usernames) (elim (Bool-cases (is_nil usernames && (prefix == ""))) [
      | inl e ↦ rw e (keep_all (passes usernames prefix) users (no_filter usernames prefix e))
      | inr e ↦ rw e (keep-congr _ _ users (in_scope-passes usernames prefix groups))
    ])
