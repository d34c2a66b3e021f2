-- ===== src/Bridge/Executor/Convergence.antt =====
-- A synchronised user needs nothing more: `updateWithPatch` and `performPut` in
-- services/scim-bridge/internal/bridge/executor.go.
use mas_iam_operator.Prelude.{
  String, ◌≡◌, refl, sym, ◌∙◌, inl, inr, true, false, none, some, List, [], ◌∷◌, arith, ◌==◌,
  eq_iff, eq_refl, if◌then◌else◌, Bool-cases, is_nil,
}
use mas_iam_operator.State.Entry.{Snapshot, Entry, is_zero, normalize_entry, status_deactivated}
use mas_iam_operator.Bridge.Patch.{snapshot_from_payload, diff_to_patch}
use mas_iam_operator.Bridge.Patch.Effect.{view, diff_to_patch-eq-nil}
use mas_iam_operator.Bridge.Profile.{ProfileResolution}
use mas_iam_operator.Bridge.Planner.{update_action}
use mas_iam_operator.Bridge.Executor.Steps.{
  synced_entry, patched_entry, execute_update, update_with_patch, send_patch, perform_put, Executor,
  World, save,
}
use mas_iam_operator.Mas.Payload.{UserResource, PatchOperation, build_user_payload}
use mas_iam_operator.State.Api.{Store, IsLawful}
use mas_iam_operator.Mas.Api.{MasApi}
use mas_iam_operator.Keycloak.Users.{User}
use mas_iam_operator.Bridge.Executor.{execute}

-- The entry is what a finished synchronisation of the payload leaves.
record IsSettled (payload : UserResource) (profile_id : String) (e : Entry) : Type 0 where
  recorded : is_zero e.last_applied ≡ false
  same : view e.last_applied ≡ view (snapshot_from_payload payload profile_id)
  active : (e.status == "deactivated") ≡ false
  named : (e.mas_id == "") ≡ false

is_nil-eq {ℓ} : {A : Type ℓ} (xs : List A) → is_nil xs ≡ true → xs ≡ []
is_nil-eq [] h = refl
is_nil-eq (x ∷ xs) h = cc

some_inj : {a b : Entry} → some a ≡ some b → a ≡ b
some_inj e = cc

view-normalize :
    (e : Entry) (d : String) → view (normalize_entry e d).last_applied ≡ view e.last_applied
unfolding normalize_entry
view-normalize e d = ground arith

is_zero-normalize :
    (e : Entry) (d : String) → is_zero (normalize_entry e d).last_applied ≡ is_zero e.last_applied
unfolding normalize_entry is_zero
is_zero-normalize e d = ground arith

status_ok-normalize :
    (e : Entry) (d : String) → e.status ≡ "ok" → (normalize_entry e d).status ≡ "ok"
unfolding normalize_entry
status_ok-normalize e d h = ground (arith, eq_iff "ok" "")

mas_id-normalize : (e : Entry) (d : String) → (normalize_entry e d).mas_id ≡ e.mas_id
unfolding normalize_entry
mas_id-normalize e d = ground arith

normalize-IsSettled :
    (payload : UserResource) (profile_id : String) (e : Entry) (d : String)
    → is_zero e.last_applied ≡ false
    → view e.last_applied ≡ view (snapshot_from_payload payload profile_id)
    → e.status ≡ "ok"
    → (e.mas_id == "") ≡ false
    → IsSettled payload profile_id (normalize_entry e d)
normalize-IsSettled payload profile_id e d z v s n = record {
  recorded = is_zero-normalize e d ∙ z;
  same = view-normalize e d ∙ v;
  active = rw (status_ok-normalize e d s) refl;
  named = rw (mas_id-normalize e d) n;
}

is_zero-snapshot :
    (payload : UserResource) (profile_id : String)
    → is_zero (snapshot_from_payload payload profile_id) ≡ false
unfolding is_zero snapshot_from_payload
is_zero-snapshot payload profile_id = refl

module _ (S : Store) (M : MasApi) (d : String) (L : IsLawful S d) (x : Executor M)
    (live : x.dry_run ≡ false) (allowed : x.allow_updates ≡ true) (u : User)
    (r : ProfileResolution) where
  update_settled :
      (payload : UserResource) (e : Entry) (w : World S M)
      → IsSettled payload r.profile_id e
      → execute_update S M x (update_action u r e) payload w ≡ (none, w)
  unfolding execute_update
  update_settled payload e w h = ground (
    arith,
    h.recorded,
    h.active,
    h.named,
    (diff_to_patch-eq-nil e.last_applied payload r.profile_id).1 h.same,
  )

  saved-IsSettled :
      (payload : UserResource) (st : S.State) (e e' : Entry)
      → IsSettled payload r.profile_id (normalize_entry e d)
      → S.lookup (S.save st u.id e).1 u.id ≡ some e'
      → IsSettled payload r.profile_id e'
  saved-IsSettled payload st e e' h q =
      let p : normalize_entry e d ≡ e' =
        ground (arith, L.lookup-save st u.id u.id e, eq_refl u.id) in
      rw (← p) h

  module _
      (accepts_patch : (p id : String) (ops : List PatchOperation) (m : M.State)
        → (M.patch_user x.mas p id ops m).0 ≡ none)
      (accepts_put : (p id : String) (res : UserResource) (m : M.State)
        → (M.update_user x.mas p id res m).0 ≡ none)
      (payload : UserResource) (e : Entry) (w : World S M)
      (tracked : S.lookup w.store u.id ≡ some e) (named : (e.mas_id == "") ≡ false) where
    put-IsSettled :
        (w : World S M) (e' : Entry)
        → S.lookup (perform_put S M x (update_action u r e) payload w).1.store u.id ≡ some e'
        → IsSettled payload r.profile_id e'
    unfolding perform_put
    put-IsSettled w e' q =
        saved-IsSettled payload w.store (synced_entry (update_action u r e) e.mas_id payload) e'
          (normalize-IsSettled payload r.profile_id _ d (is_zero-snapshot payload r.profile_id) refl
            refl named)
          (ground (arith, q, accepts_put r.profile_id e.mas_id payload w.mas))

    patch-IsSettled :
        (next : Snapshot) (ops : List PatchOperation) (e' : Entry)
        → is_zero next ≡ false
        → view next ≡ view (snapshot_from_payload payload r.profile_id)
        → S.lookup (send_patch S M x (update_action u r e) payload next ops w).1.store u.id
          ≡ some e'
        → IsSettled payload r.profile_id e'
    unfolding send_patch
    patch-IsSettled next ops e' z v q =
        saved-IsSettled payload w.store (patched_entry (update_action u r e) next) e'
          (normalize-IsSettled payload r.profile_id _ d z v refl named)
          (ground (arith, q, accepts_patch r.profile_id e.mas_id ops w.mas))

    nothing_to_send :
        is_nil (diff_to_patch e.last_applied payload r.profile_id).1 ≡ true
        → view e.last_applied ≡ view (snapshot_from_payload payload r.profile_id)
    nothing_to_send n =
        (diff_to_patch-eq-nil e.last_applied payload r.profile_id).0
          (is_nil-eq (diff_to_patch e.last_applied payload r.profile_id).1 n)

    kept-IsSettled :
        (e' : Entry)
        → is_zero e.last_applied ≡ false
        → is_nil (diff_to_patch e.last_applied payload r.profile_id).1 ≡ true
        → S.lookup
            (if e.status == status_deactivated
              then save S M
                  (update_action u r e)
                  (patched_entry (update_action u r e) e.last_applied)
                  w
              else (none, w)).1.store
            u.id
          ≡ some e'
        → IsSettled payload r.profile_id e'
    unfolding save
    kept-IsSettled e' z n q = elim (Bool-cases (e.status == "deactivated")) [
      | inl dead ↦
          saved-IsSettled payload w.store (patched_entry (update_action u r e) e.last_applied) e'
            (normalize-IsSettled payload r.profile_id _ d z (nothing_to_send n) refl named)
            (rw dead at q)
      | inr alive ↦
          let p : e ≡ e' = some_inj (sym tracked ∙ (rw alive at q)) in
          rw (← p)
            (record { recorded = z; same = nothing_to_send n; active = alive; named = named })
    ]

    with_patch-IsSettled :
        (e' : Entry)
        → S.lookup (update_with_patch S M x (update_action u r e) payload w).1.store u.id ≡ some e'
        → IsSettled payload r.profile_id e'
    unfolding update_with_patch snapshot_from_payload diff_to_patch
    with_patch-IsSettled e' q = elim (Bool-cases (is_zero e.last_applied)) [
      | inl z ↦ put-IsSettled w e' (rw (z, update_with_patch) at q)
      | inr z ↦ elim (Bool-cases (is_nil (diff_to_patch e.last_applied payload r.profile_id).1)) [
        | inl n ↦ kept-IsSettled e' z n (rw (z, n, update_with_patch) at q)
        | inr n ↦
            patch-IsSettled _ _ e' (is_zero-snapshot payload r.profile_id) refl
              (rw (z, n, update_with_patch) at q)
      ]
    ]

  -- With updates enabled and no dry run, if MAS accepts patches and full documents, then after an
  -- update of a user whose entry has a MAS identity, the update that is planned from the entry then
  -- stored has nothing to do: it ends with no error and changes neither the store nor MAS.
  pub update_converges :
      ((p id : String) (ops : List PatchOperation) (m : M.State)
        → (M.patch_user x.mas p id ops m).0 ≡ none)
      → ((p id : String) (res : UserResource) (m : M.State)
          → (M.update_user x.mas p id res m).0 ≡ none)
      → (e e' : Entry) (w : World S M) → S.lookup w.store u.id ≡ some e
      → (e.mas_id == "") ≡ false
      → S.lookup (execute S M x (update_action u r e) w).1.store u.id ≡ some e'
      → (v : World S M) → execute S M x (update_action u r e') v ≡ (none, v)
  unfolding execute execute_update
  update_converges accepts_patch accepts_put e e' w tracked named q v =
      let payload = build_user_payload u in
      update_settled payload e' v (
        with_patch-IsSettled accepts_patch accepts_put payload e w tracked named e'
          (rw (named, allowed, live, execute_update) at q))
