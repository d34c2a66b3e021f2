-- ===== src/Bridge/Executor/WellFormed.antt =====
-- What every stored entry is like: the writes of
-- services/scim-bridge/internal/bridge/executor.go.
use mas_iam_operator.Prelude.{
  String, ◌≡◌, refl, inl, inr, Bool, true, false, not, ◌&&◌, ◌||◌, Option, none, some, List, [],
  ◌∷◌, arith, ◌==◌, Bool-cases,
}
use mas_iam_operator.State.Entry.{Entry, normalize_entry, status-normalize_entry}
use mas_iam_operator.State.Api.{Store, IsLawful}
use mas_iam_operator.Mas.Api.{MasApi}
use mas_iam_operator.Mas.Payload.{UserResource, MasUser, build_user_payload}
use mas_iam_operator.Bridge.Planner.{Action}
use mas_iam_operator.Bridge.Executor.{execute}
use mas_iam_operator.Bridge.Executor.Steps.{
  World, Executor, adopt, execute_create, execute_update, execute_deactivate,
}

-- An entry, if there is one, has a status, has no error text if that is `ok`, and has a profile, in
-- its snapshot too.
unfoldable pub is_well_formed : Option Entry → Bool
is_well_formed none = true
is_well_formed (some e) =
    not (e.status == "")
    && (not (e.status == "ok") || (e.last_error == ""))
    && not (e.profile_id == "")
    && not (e.last_applied.profile_id == "")

module _ (e : Entry) (d : String) (named : (d == "") ≡ false) where
  status_named : ((normalize_entry e d).status == "") ≡ false
  status_named =
      rw (status-normalize_entry e d)
        (elim (Bool-cases (e.status == "")) [ inl h ↦ rw h refl | inr h ↦ rw h h ])

  no_error_text :
      not ((normalize_entry e d).status == "ok") || ((normalize_entry e d).last_error == "") ≡ true
  unfolding normalize_entry
  no_error_text = elim (Bool-cases (e.status == "")) [
    | inl h ↦ elim (Bool-cases (e.profile_id == "")) [
      | inl p ↦ rw (h, p) refl
      | inr p ↦ rw (h, p) refl
    ]
    | inr h ↦ elim (Bool-cases (e.status == "ok")) [
      | inl g ↦ elim (Bool-cases (e.profile_id == "")) [
        | inl p ↦ rw (h, g, p) (rw g refl)
        | inr p ↦ rw (h, g, p) (rw g refl)
      ]
      | inr g ↦ elim (Bool-cases (e.profile_id == "")) [
        | inl p ↦ rw (h, g, p) (rw g refl)
        | inr p ↦ rw (h, g, p) (rw g refl)
      ]
    ]
  ]

  profile_named : ((normalize_entry e d).profile_id == "") ≡ false
  unfolding normalize_entry
  profile_named = ground arith

  snapshot_named : ((normalize_entry e d).last_applied.profile_id == "") ≡ false
  unfolding normalize_entry
  snapshot_named = ground arith

  is_well_formed-normalize_entry : is_well_formed (some (normalize_entry e d)) ≡ true
  unfolding is_well_formed
  is_well_formed-normalize_entry =
      rw (status_named, no_error_text, profile_named, snapshot_named) refl

module _ (S : Store) (M : MasApi) (d : String) (L : IsLawful S d) (named : (d == "") ≡ false)
    (k : String) where
  pub is_well_formed-save :
      (st : S.State) (j : String) (e : Entry)
      → is_well_formed (S.lookup st k) ≡ true
      → is_well_formed (S.lookup (S.save st j e).1 k) ≡ true
  is_well_formed-save st j e h =
      ground (arith, L.lookup-save st j k e, is_well_formed-normalize_entry e d named)

  module _ (x : Executor M) (a : Action) where
    is_well_formed-adopt :
        (payload : UserResource) (filter : String) (users : List MasUser) (w : World S M)
        → is_well_formed (S.lookup w.store k) ≡ true
        → is_well_formed (S.lookup (adopt S M a payload filter users w).1.store k) ≡ true
    unfolding adopt
    is_well_formed-adopt payload filter [] w h = is_well_formed-save w.store _ _ h
    is_well_formed-adopt payload filter (u ∷ []) w h = is_well_formed-save w.store _ _ h
    is_well_formed-adopt payload filter (u ∷ v ∷ users) w h = is_well_formed-save w.store _ _ h

    is_well_formed-deactivate :
        (w : World S M)
        → is_well_formed (S.lookup w.store k) ≡ true
        → is_well_formed (S.lookup (execute_deactivate S M x a w).1.store k) ≡ true
    unfolding execute_deactivate
    is_well_formed-deactivate w h = grind (arith, is_well_formed-save)

    is_well_formed-create :
        (payload : UserResource) (w : World S M)
        → is_well_formed (S.lookup w.store k) ≡ true
        → is_well_formed (S.lookup (execute_create S M x a payload w).1.store k) ≡ true
    unfolding execute_create
    is_well_formed-create payload w h = grind (arith, is_well_formed-save)

    is_well_formed-update :
        (payload : UserResource) (w : World S M)
        → is_well_formed (S.lookup w.store k) ≡ true
        → is_well_formed (S.lookup (execute_update S M x a payload w).1.store k) ≡ true
    unfolding execute_update
    is_well_formed-update payload w h = grind (arith, is_well_formed-save)

    pub is_well_formed-execute :
        (w : World S M)
        → is_well_formed (S.lookup w.store k) ≡ true
        → is_well_formed (S.lookup (execute S M x a w).1.store k) ≡ true
    unfolding execute
    is_well_formed-execute w h = ground (
      arith,
      is_well_formed-create (build_user_payload a.user) w h,
      is_well_formed-update (build_user_payload a.user) w h,
      is_well_formed-deactivate w h,
    )
