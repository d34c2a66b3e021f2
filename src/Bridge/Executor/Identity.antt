-- ===== src/Bridge/Executor/Identity.antt =====
-- Entries that stand for a MAS user have its identity: the writes of
-- services/scim-bridge/internal/bridge/executor.go.
use text.Mathlib.TextLemmas.{append-eq-nil_iff}
use mas_iam_operator.Prelude.{
  String, ◌<>◌, ◌≡◌, refl, inl, inr, Bool, true, false, ◌||◌, Option, none, some, List, [], ◌∷◌,
  arith, ◌==◌, eq_iff, eq_refl, Option-cases,
}
use mas_iam_operator.Errors.{Error, as_response, Result, ok, err, Result-cases}
use mas_iam_operator.State.Entry.{normalize_entry, Entry, no_snapshot}
use mas_iam_operator.Bridge.Executor.Steps.{
  adopt, execute_create, execute_update, execute_deactivate, Executor, World, adopt_or_search,
  search_again, create_failed, handle_conflict, external_id_filter, failed_entry, user_name_filter,
  failure_text, synced_entry,
}
use mas_iam_operator.Mas.Api.{MasApi}
use mas_iam_operator.State.Api.{Store, IsLawful}
use mas_iam_operator.Mas.Payload.{MasUser, UserResource, build_user_payload}
use mas_iam_operator.Bridge.Planner.{Action}
use mas_iam_operator.Bridge.Executor.{execute}

-- The status says that the user exists in MAS, or did.
abbrev pub is_live : String → Bool
is_live status = (status == "ok") || (status == "deactivated")

abbrev pub IsNamed : Option Entry → Type 0
IsNamed none = Unit
IsNamed (some e) = is_live e.status ≡ true → (e.mas_id == "") ≡ false

-- Each user that a search finds has an identity.
abbrev pub AllNamed : List MasUser → Type 0
AllNamed [] = Unit
AllNamed (u ∷ users) = ((u.id == "") ≡ false) × AllNamed users

abbrev pub NamedUsers : Result (List MasUser) → Type 0
NamedUsers (ok users) = AllNamed users
NamedUsers (err e) = Unit

abbrev pub NamedUser : Result String → Type 0
NamedUser (ok id) = (id == "") ≡ false
NamedUser (err e) = Unit

-- What SCIM asks of a server: every resource has an `id`.
pub record HasIds (M : MasApi) : Type 0 where
  pub created :
      (c : M.Client) (p : String) (r : UserResource) (m : M.State)
      → NamedUser (M.create_user c p r m).0
  pub found : (c : M.Client) (p f : String) (m : M.State) → NamedUsers (M.search_users c p f m).0

dryrun_id : (id : String) → ("dryrun-" <> id == "") ≡ false
dryrun_id id = ground (
  arith,
  eq_iff ("dryrun-" <> id) "",
  append-eq-nil_iff {p = "dryrun-"} {q = id},
  eq_iff "dryrun-" "",
)

module _ (S : Store) (M : MasApi) (d : String) (L : IsLawful S d) (ids : HasIds M) (x : Executor M)
    (a : Action) where
  IsNamed-save :
      (st : S.State) (e : Entry)
      → IsNamed (some e)
      → (e.status == "") ≡ false
      → IsNamed (S.lookup (S.save st a.user.id e).1 a.user.id)
  unfolding normalize_entry
  IsNamed-save st e h n =
      rw (L.lookup-save st a.user.id a.user.id e)
        (rw (eq_refl a.user.id) (ground (arith, eq_iff "" "ok")))

  adopt-IsNamed :
      (payload : UserResource) (filter : String) (users : List MasUser) (w : World S M)
      → AllNamed users
      → IsNamed (S.lookup (adopt S M a payload filter users w).1.store a.user.id)
  unfolding adopt
  adopt-IsNamed payload filter [] w h = IsNamed-save w.store _ (λ e. cc) refl
  adopt-IsNamed payload filter (u ∷ []) w h = IsNamed-save w.store _ (λ _. h.0) refl
  adopt-IsNamed payload filter (u ∷ v ∷ users) w h = IsNamed-save w.store _ (λ e. cc) refl

  deactivate-IsNamed :
      (w : World S M)
      → IsNamed (S.lookup w.store a.user.id)
      → IsNamed (S.lookup (execute_deactivate S M x a w).1.store a.user.id)
  unfolding execute_deactivate
  deactivate-IsNamed w h = grind (arith, IsNamed-save)

  update-IsNamed :
      (payload : UserResource) (w : World S M)
      → IsNamed (S.lookup w.store a.user.id)
      → IsNamed (S.lookup (execute_update S M x a payload w).1.store a.user.id)
  unfolding execute_update
  update-IsNamed payload w h = grind (arith, IsNamed-save)

  found-AllNamed :
      (p f : String) (m : M.State) (users : List MasUser)
      → (M.search_users x.mas p f m).0 ≡ ok users
      → AllNamed users
  found-AllNamed p f m users e =
      let h : NamedUsers (ok users) = rw e at (ids.found x.mas p f m) in h

  created-named :
      (p : String) (r : UserResource) (m : M.State) (id : String)
      → (M.create_user x.mas p r m).0 ≡ ok id
      → (id == "") ≡ false
  created-named p r m id e = let h : NamedUser (ok id) = rw e at (ids.created x.mas p r m) in h

  adopt_or_search-IsNamed :
      (payload : UserResource) (filter : String) (users : List MasUser) (w : World S M)
      → AllNamed users
      → IsNamed (S.lookup w.store a.user.id)
      → IsNamed (S.lookup (adopt_or_search S M x a payload filter users w).1.store a.user.id)
  unfolding adopt_or_search
  adopt_or_search-IsNamed payload filter (u ∷ users) w h k =
      adopt-IsNamed payload filter (u ∷ users) w h
  adopt_or_search-IsNamed payload filter [] w h k =
      elim (Result-cases (M.search_users x.mas a.profile_id (user_name_filter a) w.mas).0) [
        | inl (users, e) ↦
            rw (e, adopt_or_search)
              (adopt-IsNamed payload (user_name_filter a) users _
                (found-AllNamed _ _ w.mas users e))
        | inr (e, q) ↦
            rw (q, adopt_or_search)
              (ground (
                arith,
                adopt-IsNamed payload (user_name_filter a) [] (record w {
                  mas = (M.search_users x.mas a.profile_id (user_name_filter a) w.mas).1;
                }),
              ))
      ]

  search_again-IsNamed :
      (payload : UserResource) (w : World S M)
      → IsNamed (S.lookup w.store a.user.id)
      → IsNamed (S.lookup (search_again S M x a payload w).1.store a.user.id)
  unfolding search_again
  search_again-IsNamed payload w k =
      elim (Result-cases (M.search_users x.mas a.profile_id (user_name_filter a) w.mas).0) [
        | inl (users, e) ↦
            rw (e, search_again)
              (adopt_or_search-IsNamed payload (user_name_filter a) users _
                (found-AllNamed _ _ w.mas users e) k)
        | inr (e, q) ↦ rw (q, search_again) (ground arith)
      ]

  handle_conflict-IsNamed :
      (payload : UserResource) (w : World S M)
      → IsNamed (S.lookup w.store a.user.id)
      → IsNamed (S.lookup (handle_conflict S M x a payload w).1.store a.user.id)
  unfolding handle_conflict
  handle_conflict-IsNamed payload w k =
      elim (Result-cases (M.search_users x.mas a.profile_id (external_id_filter a) w.mas).0) [
        | inl (users, e) ↦
            rw (e, handle_conflict)
              (adopt_or_search-IsNamed payload (external_id_filter a) users _
                (found-AllNamed _ _ w.mas users e) k)
        | inr (e, q) ↦
            rw (q, handle_conflict)
              (ground (
                arith,
                search_again-IsNamed payload
                    (record w {
                      mas = (M.search_users x.mas a.profile_id (external_id_filter a) w.mas).1;
                    })
                    k,
              ))
      ]

  create_failed-IsNamed :
      (payload : UserResource) (e : Error) (w : World S M)
      → IsNamed (S.lookup w.store a.user.id)
      → IsNamed (S.lookup (create_failed S M x a payload e w).1.store a.user.id)
  unfolding create_failed
  create_failed-IsNamed payload e w k = elim (Option-cases (as_response e)) [
    | inl q ↦ rw (q, create_failed) k
    | inr (r, q) ↦
        rw (q, create_failed)
          (ground (
            arith,
            handle_conflict-IsNamed payload w k,
            IsNamed-save w.store (failed_entry a "" no_snapshot (failure_text r)) (λ h. cc) refl,
          ))
  ]

  create-IsNamed :
      (payload : UserResource) (w : World S M)
      → IsNamed (S.lookup w.store a.user.id)
      → IsNamed (S.lookup (execute_create S M x a payload w).1.store a.user.id)
  unfolding execute_create
  create-IsNamed payload w k =
      let m = (M.create_user x.mas a.profile_id payload w.mas).1 in
      let dry =
        IsNamed-save w.store (synced_entry a ("dryrun-" <> a.user.id) payload)
          (λ _. dryrun_id a.user.id) refl in
      elim (Result-cases (M.create_user x.mas a.profile_id payload w.mas).0) [
        | inl (id, e) ↦
            rw (e, execute_create)
              (ground (
                arith,
                dry,
                IsNamed-save w.store (synced_entry a id payload)
                    (λ _. created-named a.profile_id payload w.mas id e) refl,
              ))
        | inr (e, q) ↦
            rw (q, execute_create)
              (ground (arith, dry, create_failed-IsNamed payload e (record w { mas = m }) k))
      ]

  -- If every entry with the status of a live or a deactivated user has a MAS identity, and MAS
  -- gives every user one, then so it is for the entry of an action's user after the action,
  -- whatever the action and the answers.
  pub execute-IsNamed :
      (w : World S M)
      → IsNamed (S.lookup w.store a.user.id)
      → IsNamed (S.lookup (execute S M x a w).1.store a.user.id)
  unfolding execute
  execute-IsNamed w k = ground (
    arith,
    create-IsNamed (build_user_payload a.user) w k,
    update-IsNamed (build_user_payload a.user) w k,
    deactivate-IsNamed w k,
  )
