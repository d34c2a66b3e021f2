-- ===== src/Bridge/Executor/Deactivation.antt =====
-- Deactivation and its tombstone: `deactivate` in
-- services/scim-bridge/internal/bridge/executor.go.
use mas_iam_operator.Prelude.{
  String, ◌≡◌, Bool, true, false, not, ◌&&◌, Option, none, some, arith, ◌==◌, eq_iff, nat_beq,
  if◌then◌else◌,
}
use mas_iam_operator.Errors.{Error, as_response}
use mas_iam_operator.State.Entry.{normalize_entry}
use mas_iam_operator.Bridge.Executor.Steps.{
  deactivate_ops, tombstone, failed_entry, failure_text, execute_deactivate, Executor, World,
}
use mas_iam_operator.State.Api.{Store, IsLawful}
use mas_iam_operator.Mas.Api.{MasApi}
use mas_iam_operator.Bridge.Planner.{Action}

-- The user is known to be inactive in MAS: the patch was accepted, or there is no such user.
abbrev pub is_gone : Option Error → Bool
is_gone none = true
is_gone (some e) = elim (as_response e) [ none ↦ false | some r ↦ nat_beq r.status_code 404 ]

-- MAS answered with an error other than a refusal of the credentials and a missing user.
abbrev pub is_rejected : Option Error → Bool
is_rejected none = false
is_rejected (some e) = elim (as_response e) [
  | none ↦ false
  | some r ↦ not (nat_beq r.status_code 401) && not (nat_beq r.status_code 404)
]

abbrev pub text_of_failure : Option Error → String
text_of_failure none = ""
text_of_failure (some e) = elim (as_response e) [ none ↦ "" | some r ↦ failure_text r ]

module _ (S : Store) (M : MasApi) (d : String) (L : IsLawful S d) (x : Executor M) (a : Action)
    (w : World S M) (live : x.dry_run ≡ false) (allowed : x.allow_updates ≡ true)
    (tracked : (a.existing_mas == "") ≡ false) where
  -- What MAS answers to the request that sets `active` to false.
  abbrev answer : Option Error
  answer = (M.patch_user x.mas a.profile_id a.existing_mas deactivate_ops w.mas).0

  store-deactivate : (execute_deactivate S M x a w).1.store ≡ (
      if is_gone answer
      then (S.save w.store a.user.id (tombstone a)).1
      else if is_rejected answer
      then (S.save w.store a.user.id
          (failed_entry a a.existing_mas a.state_last_applied (text_of_failure answer))).1
      else w.store)
  unfolding execute_deactivate
  store-deactivate = ground arith

  -- The entry after a deactivation, for every answer of MAS: the tombstone if the user is inactive
  -- or missing in MAS, an entry of status `error` that keeps the MAS identity and the snapshot if
  -- MAS rejects the request, and the entry from before if there is no answer or MAS refuses the
  -- credentials.
  pub lookup-deactivate : S.lookup (execute_deactivate S M x a w).1.store a.user.id ≡ (
      if is_gone answer
      then some (normalize_entry (tombstone a) d)
      else if is_rejected answer
      then some (
          normalize_entry
            (failed_entry a a.existing_mas a.state_last_applied (text_of_failure answer))
            d)
      else S.lookup w.store a.user.id)
  lookup-deactivate = rw store-deactivate (
      ground (
        arith,
        eq_iff a.user.id a.user.id,
        L.lookup-save w.store a.user.id a.user.id (tombstone a),
        L.lookup-save w.store a.user.id a.user.id
            (failed_entry a a.existing_mas a.state_last_applied (text_of_failure answer)),
      ))
