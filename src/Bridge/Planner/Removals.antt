-- ===== src/Bridge/Planner/Removals.antt =====
-- Which users are deactivated: `PlanRemovals` in
-- services/scim-bridge/internal/bridge/planner.go.
use mathlib.Core.List.{append-nil}
use mas_iam_operator.Prelude.{
  String, ◌≡◌, refl, ap, ◌∙◌, inl, inr, Bool, false, not, ◌&&◌, Option, none, some, List, [], ◌∷◌,
  ◌++◌, arith, ◌==◌, eq_iff, eq_refl, if◌then◌else◌, Bool-cases, is_some, keep, has,
}
use mas_iam_operator.Errors.{ok, Result-cases, ok_inj}
use mas_iam_operator.Prelude.Sort.{Distinct, sort_strings, has-sort_strings, sort_strings-Distinct}
use mas_iam_operator.Prelude.Dict.{Dict, keys, NodupKeys, has-keys}
use mas_iam_operator.Bridge.Planner.{
  Action, deactivate_action, removal, removals, plan_removals, user_ids,
}
use mas_iam_operator.State.Entry.{Entry}
use mas_iam_operator.State.Api.{Store, IsLawful}
use mas_iam_operator.Keycloak.Users.{User}
use mas_iam_operator.Prelude.Dict

-- A tracked user who is out of scope, has a MAS identity and is not known to be inactive.
abbrev pub is_due : List String → String → Option Entry → Bool
is_due present k none = false
is_due present k (some e) =
    not (has k present) && not (e.status == "deactivated") && not (e.mas_id == "")

abbrev pub due_actions : List String → String → Option Entry → List Action
due_actions present k none = []
due_actions present k (some e) =
    if is_due present k (some e) then deactivate_action k e ∷ [] else []

-- The actions for one user.
unfoldable pub for_user : String → List Action → List Action
for_user k actions = keep (λ a. a.user.id == k) actions

keep-append {ℓ} :
    {A : Type ℓ} (p : A → Bool) (xs ys : List A) → keep p (xs ++ ys) ≡ keep p xs ++ keep p ys
keep-append p [] ys = refl
keep-append p (x ∷ xs) ys = ground (arith, keep-append p xs ys)

for_user-removal_self :
    (present : List String) (k : String) (o : Option Entry)
    → for_user k (removal present k o) ≡ due_actions present k o
unfolding for_user removal
for_user-removal_self present k none = refl
for_user-removal_self present k (some e) = ground (arith, eq_refl k)

for_user-removal_other :
    (present : List String) (j k : String) (o : Option Entry)
    → (j == k) ≡ false
    → for_user k (removal present j o) ≡ []
unfolding for_user removal
for_user-removal_other present j k none h = refl
for_user-removal_other present j k (some e) h = ground arith

for_user-removals :
    (present : List String) (entries : Dict Entry) (k : String) (ids : List String)
    → Distinct ids
    → for_user k (removals present entries ids)
      ≡ (if has k ids then due_actions present k (Dict.lookup k entries) else [])
unfolding removals has for_user
for_user-removals present entries k [] u = refl
for_user-removals present entries k (j ∷ ids) (fresh, u) =
    rw (keep-append (λ a. a.user.id == k) (removal present j (Dict.lookup j entries)))
      (elim (Bool-cases (j == k)) [
        | inl e ↦
            let p : j ≡ k = (eq_iff j k).0 e in
            rw e (
              rw (← p) (
                rw (for_user-removal_self present j (Dict.lookup j entries))
                  (rw (for_user-removals present entries j ids u) (rw fresh (append-nil _)))))
        | inr e ↦ rw e (
            rw (for_user-removal_other present j k (Dict.lookup j entries) e)
              (for_user-removals present entries k ids u))
      ])

keys-Distinct : {V : Type 0} (m : Dict V) → NodupKeys m → Distinct (keys m)
unfolding keys
keys-Distinct [] u = tt
keys-Distinct ((k, v) ∷ m) (fresh, u) = (fresh, keys-Distinct m u)

due_if_tracked :
    (present : List String) (k : String) (o : Option Entry)
    → (if is_some o then due_actions present k o else []) ≡ due_actions present k o
due_if_tracked present k none = refl
due_if_tracked present k (some e) = refl

for_user-sorted :
    (present : List String) (m : Dict Entry) (k : String)
    → NodupKeys m
    → for_user k (removals present m (sort_strings (keys m)))
      ≡ due_actions present k (Dict.lookup k m)
for_user-sorted present m k u =
    for_user-removals present m k (sort_strings (keys m))
      (sort_strings-Distinct (keys m) (keys-Distinct m u))
    ∙ rw (has-sort_strings k (keys m), has-keys k m) (due_if_tracked present k (Dict.lookup k m))

module _ (S : Store) (d : String) (L : IsLawful S d) where
  -- The planned removals hold, for every identity, one deactivation of its entry if it is due and
  -- nothing else if it is not: due is who is tracked, is not among the scoped users, is not marked
  -- as deactivated and has a MAS identity.
  pub for_user-plan_removals :
      (scoped : List User) (st : S.State) (actions : List Action)
      → plan_removals S scoped st ≡ ok actions
      → (k : String) → for_user k actions ≡ due_actions (user_ids scoped) k (S.lookup st k)
  unfolding plan_removals
  for_user-plan_removals scoped st actions h k = elim (Result-cases (S.list st)) [
    | inl (m, e) ↦ rw (← ok_inj (rw (e, plan_removals) at h)) (
        for_user-sorted (user_ids scoped) m k (L.list-NodupKeys st m e)
        ∙ ap (due_actions (user_ids scoped) k) (L.lookup-list st m e k))
    | inr (x, e) ↦ absurd (ground (arith, e, h))
  ]
