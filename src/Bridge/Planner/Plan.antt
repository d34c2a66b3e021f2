-- ===== src/Bridge/Planner/Plan.antt =====
-- What planning does to the store: `Plan` in services/scim-bridge/internal/bridge/planner.go.
use mas_iam_operator.Prelude.{
  String, ◌≡◌, refl, ap, ◌∙◌, inl, inr, Bool, true, false, Option, none, some, List, [], ◌∷◌, arith,
  ◌==◌, eq_iff, eq_refl, Bool-cases, has,
}
use mas_iam_operator.State.Entry.{normalize_entry, Entry}
use mas_iam_operator.Bridge.Profile.{ProfileResolver, ProfileResolution, resolve}
use mas_iam_operator.Bridge.Planner.{
  ActionType, create, update, deactivate, other, mismatch_entry, plan_known, plan_user, plan,
  user_ids,
}
use mas_iam_operator.Prelude.Text.{CaseTable}
use mas_iam_operator.State.Api.{Store, IsLawful}
use mas_iam_operator.Keycloak.Users.{User}

-- The entry has this MAS identity and this profile.
abbrev pub HasIdentity : String → String → Option Entry → Type 0
HasIdentity mas_id profile_id none = ⊥
HasIdentity mas_id profile_id (some e) = (e.mas_id ≡ mas_id) × (e.profile_id ≡ profile_id)

-- The action creates or updates.
abbrev pub is_sync : ActionType → Bool
is_sync create = true
is_sync update = true
is_sync deactivate = false
is_sync (other _) = false

module _ ⦃c : CaseTable⦄ (S : Store) (d : String) (L : IsLawful S d)
    (resolver : ProfileResolver) where
  known-frame :
      (u : User) (r : ProfileResolution) (o : Option Entry) (st : S.State) (k : String)
      → (u.id == k) ≡ false
      → S.lookup (plan_known S resolver u r o st).1 k ≡ S.lookup st k
  unfolding plan_known
  known-frame u r none st k h = refl
  known-frame u r (some e) st k h = ground (
    arith,
    L.lookup-save st u.id k (mismatch_entry u r e),
    L.lookup-save st u.id k (record e { profile_id = r.profile_id }),
  )

  user-frame :
      (u : User) (st : S.State) (k : String)
      → (u.id == k) ≡ false
      → S.lookup (plan_user S resolver u st).1 k ≡ S.lookup st k
  unfolding plan_user
  user-frame u st k h =
      ground (arith, known-frame u (resolve resolver u.mas_profile).0 (S.lookup st u.id) st k h)

  -- Planning leaves the entry of everyone who is not among its users as it was.
  pub plan-frame :
      (users : List User) (st : S.State) (k : String)
      → has k (user_ids users) ≡ false
      → S.lookup (plan S resolver users st).1 k ≡ S.lookup st k
  unfolding plan has user_ids
  plan-frame [] st k h = refl
  plan-frame (u ∷ users) st k h =
      plan-frame users (plan_user S resolver u st).1 k (ground arith)
      ∙ user-frame u st k (ground arith)

  save-HasIdentity :
      (st : S.State) (k m p : String) (e : Entry)
      → (p == "") ≡ false
      → e.mas_id ≡ m
      → e.profile_id ≡ p
      → HasIdentity m p (S.lookup (S.save st k e).1 k)
  unfolding normalize_entry
  save-HasIdentity st k m p e n hm hp =
      rw (L.lookup-save st k k e) (rw (eq_refl k) (ground (arith, ap (λ t. t == "") hp)))

  known-HasIdentity_self :
      (u : User) (r : ProfileResolution) (o : Option Entry) (st : S.State) (m p : String)
      → S.lookup st u.id ≡ o
      → (p == "") ≡ false
      → HasIdentity m p o
      → HasIdentity m p (S.lookup (plan_known S resolver u r o st).1 u.id)
  unfolding plan_known
  known-HasIdentity_self u r none st m p q n h = absurd h
  known-HasIdentity_self u r (some e) st m p q n (hm, hp) =
      let filled : (e.profile_id == "") ≡ false = rw hp n in
      let kept : HasIdentity m p (S.lookup st u.id) = rw q (hm, hp) in
      rw filled (elim (Bool-cases (e.profile_id == r.profile_id)) [
        | inl same ↦ rw same kept
        | inr differs ↦ rw differs (save-HasIdentity st u.id m p (mismatch_entry u r e) n hm hp)
      ])

  known-HasIdentity :
      (u : User) (r : ProfileResolution) (st : S.State) (k m p : String)
      → (p == "") ≡ false
      → HasIdentity m p (S.lookup st k)
      → HasIdentity m p (S.lookup (plan_known S resolver u r (S.lookup st u.id) st).1 k)
  known-HasIdentity u r st k m p n h = elim (Bool-cases (u.id == k)) [
    | inl e ↦
        let q : u.id ≡ k = (eq_iff u.id k).0 e in
        rw (← q) (known-HasIdentity_self u r (S.lookup st u.id) st m p refl n (rw q h))
    | inr e ↦ rw (known-frame u r (S.lookup st u.id) st k e) h
  ]

  user-HasIdentity :
      (u : User) (st : S.State) (k m p : String)
      → (p == "") ≡ false
      → HasIdentity m p (S.lookup st k)
      → HasIdentity m p (S.lookup (plan_user S resolver u st).1 k)
  unfolding plan_user
  user-HasIdentity u st k m p n h =
      ground (arith, known-HasIdentity u (resolve resolver u.mas_profile).0 st k m p n h)

  -- Planning keeps the MAS identity and the profile of every tracked user who has a profile: no
  -- user is moved to another profile, whatever label Keycloak gives.
  pub plan-HasIdentity :
      (users : List User) (st : S.State) (k m p : String)
      → (p == "") ≡ false
      → HasIdentity m p (S.lookup st k)
      → HasIdentity m p (S.lookup (plan S resolver users st).1 k)
  unfolding plan
  plan-HasIdentity [] st k m p n h = h
  plan-HasIdentity (u ∷ users) st k m p n h =
      plan-HasIdentity users (plan_user S resolver u st).1 k m p n (user-HasIdentity u st k m p n h)
