-- ===== src/Bridge/Backfill.antt =====
-- services/scim-bridge/internal/bridge/backfill.go. Log lines are not modelled. The client is
-- attached before every run, so the error for a missing one is not modelled.
use mas_iam_operator.Prelude.{ℕ, String, ◌<>◌, none, some, List, [], ◌∷◌, ◌==◌, if◌then◌else◌}
use mas_iam_operator.Prelude.Text.{CaseTable}
use mas_iam_operator.Errors.{Result, ok, err, wrapped}
use mas_iam_operator.Keycloak.Users.{User}
use mas_iam_operator.Mas.Payload.{MasUser}
use mas_iam_operator.Mas.Api.{MasApi}
use mas_iam_operator.State.Entry.{no_snapshot, Entry, status_ok, status_error}
use mas_iam_operator.State.Api.{Store}
use mas_iam_operator.Bridge.Profile.{ProfileResolver, resolve}
use mas_iam_operator.Bridge.Scope.{KeycloakSource, UserScope, candidates, filter}
use mas_iam_operator.Bridge.Executor.Steps.{World, Outcome}

abbrev pub unmapped_entry : User → String → String → Entry
unmapped_entry u profile_id search_filter = record {
  mas_id = "";
  profile_id = profile_id;
  status = status_error;
  last_error = "no unique MAS user found (filter=" <> (search_filter <> ")");
  username = u.username;
  last_applied = no_snapshot;
}

abbrev pub mapped_entry : User → String → String → Entry
mapped_entry u profile_id mas_id = record {
  mas_id = mas_id;
  profile_id = profile_id;
  status = status_ok;
  last_error = "";
  username = u.username;
  last_applied = no_snapshot;
}

-- The identity of the only user found, or the empty text.
unfoldable pub unique_id : List MasUser → String
unique_id (u ∷ []) = u.id
unique_id [] = ""
unique_id (u ∷ v ∷ users) = ""

module _ (M : MasApi) (client : M.Client) (profile_id : String) where
  abbrev by_username : String → String
  by_username username = "userName eq \"" <> (username <> "\"")

  abbrev by_external_id : String → String
  by_external_id keycloak_id = "externalId eq \"" <> (keycloak_id <> "\"")

  -- From `if len(users) == 0` on. The result holds the identity and the filter used.
  search_if_empty : String → String → List MasUser → M.State → Result (String × String) × M.State
  search_if_empty username used (u ∷ users) m = (ok (unique_id (u ∷ users), used), m)
  search_if_empty username used [] m =
      let (found, m') = M.search_users client profile_id (by_username username) m in
      elim found [
        | ok users ↦ (ok (unique_id users, by_username username), m')
        | err e ↦ (err e, m')
      ]

  search_fallback : String → M.State → Result (String × String) × M.State
  unfolding search_if_empty
  search_fallback username m =
      let (found, m') = M.search_users client profile_id (by_username username) m in
      elim found [
        | ok users ↦ search_if_empty username (by_username username) users m'
        | err e ↦ (err e, m')
      ]

  unfoldable pub search_mas_user : String → String → M.State → Result (String × String) × M.State
  unfolding search_fallback search_if_empty unique_id
  search_mas_user keycloak_id username m =
      let (found, m') = M.search_users client profile_id (by_external_id keycloak_id) m in
      elim found [
        | ok users ↦ search_if_empty username (by_external_id keycloak_id) users m'
        | err e ↦ search_fallback username m'
      ]

module _ ⦃c : CaseTable⦄ (S : Store) (M : MasApi) (resolver : ProfileResolver)
    (client : M.Client) where
  -- The `switch` on the identity: an error of `Save` is dropped.
  record_mapping : User → String → String × String → World S M → World S M
  record_mapping u profile_id (mas_id, used) w = record w {
    store =
        (S.save w.store u.id (
          if mas_id == ""
          then unmapped_entry u profile_id used
          else mapped_entry u profile_id mas_id)).1;
  }

  backfill_known : User → String → World S M → Outcome S M
  unfolding record_mapping
  backfill_known u profile_id w =
      let (found, m) = search_mas_user M client profile_id u.id u.username w.mas in
      let w' : World S M = record w { mas = m } in
      elim found [
        | err e ↦ (some (wrapped ("search MAS for user " <> u.username) e), w')
        | ok mapping ↦ (none, record_mapping u profile_id mapping w')
      ]

  unfoldable pub backfill_user : User → World S M → Outcome S M
  unfolding backfill_known
  backfill_user u w =
      let (resolution, known) = resolve resolver u.mas_profile in
      if known then backfill_known u resolution.profile_id w else (none, w)

  unfoldable pub backfill_users : List User → World S M → Outcome S M
  unfolding backfill_user
  backfill_users [] w = (none, w)
  backfill_users (u ∷ users) w =
      let (failed, w') = backfill_user u w in
      let rest = backfill_users users w' in elim failed [ some e ↦ (some e, w') | none ↦ rest ]

  -- `Run`
  unfoldable pub backfill :
      (kc : KeycloakSource) → ℕ → UserScope → kc.State → World S M → Outcome S M × kc.State
  unfolding backfill_users
  backfill kc fuel scope k w =
      let (found, k') = candidates kc fuel scope k in
      elim found [
        | err e ↦ ((some e, w), k')
        | ok users ↦ (backfill_users (filter scope users) w, k')
      ]
