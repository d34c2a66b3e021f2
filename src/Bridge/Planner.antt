-- ===== src/Bridge/Planner.antt =====
-- services/scim-bridge/internal/bridge/planner.go. Log lines are not modelled.
pub mod Removals
pub mod Plan
use mas_iam_operator.Prelude.{
  String, ◌<>◌, false, not, ◌&&◌, Option, none, some, List, [], ◌∷◌, ◌++◌, ◌==◌, if◌then◌else◌, has,
}
use mas_iam_operator.Prelude.Text.{CaseTable}
use mas_iam_operator.Prelude.Sort.{sort_strings}
use mas_iam_operator.Prelude.Dict.{Dict, keys}
use mas_iam_operator.Errors.{Result, ok, err, wrap_result}
use mas_iam_operator.Keycloak.Users.{User}
use mas_iam_operator.State.Entry.{Snapshot, no_snapshot, Entry, status_error, status_deactivated}
use mas_iam_operator.State.Api.{Store}
use mas_iam_operator.Bridge.Profile.{ProfileResolver, ProfileResolution, resolve}
use mas_iam_operator.Prelude.Dict

-- `ActionType` is a text: `other` stands for those that no constant names.
pub data ActionType : Type 0 where
  create update deactivate : ActionType
  other : String → ActionType

pub record Action : Type 0 where
  pub action_type : ActionType
  pub user : User
  pub existing_mas : String
  pub state_status : String
  pub state_last_error : String
  pub state_last_applied : Snapshot
  pub profile_label : String
  pub profile_id : String

abbrev pub create_action : User → ProfileResolution → Action
create_action u resolution = record {
  action_type = create;
  user = u;
  existing_mas = "";
  state_status = "";
  state_last_error = "";
  state_last_applied = no_snapshot;
  profile_label = resolution.label;
  profile_id = resolution.profile_id;
}

abbrev pub update_action : User → ProfileResolution → Entry → Action
update_action u resolution entry = record {
  action_type = update;
  user = u;
  existing_mas = entry.mas_id;
  state_status = entry.status;
  state_last_error = entry.last_error;
  state_last_applied = entry.last_applied;
  profile_label = resolution.label;
  profile_id = resolution.profile_id;
}

-- The entry that records a profile mismatch. It has no snapshot.
abbrev pub mismatch_entry : User → ProfileResolution → Entry → Entry
mismatch_entry u resolution entry = record {
  mas_id = entry.mas_id;
  profile_id = entry.profile_id;
  status = status_error;
  last_error =
      "mas profile mismatch: stored="
      <> (entry.profile_id <> (" derived=" <> resolution.profile_id));
  username = u.username;
  last_applied = no_snapshot;
}

-- `keycloak.User{ID: kcID, Username: entry.Username}`
abbrev pub removed_user : String → Entry → User
removed_user kc_id entry = record {
  id = kc_id;
  username = entry.username;
  email = "";
  enabled = false;
  first_name = "";
  last_name = "";
  attributes = [];
  mas_profile = "";
  federation_link = "";
}

abbrev pub deactivate_action : String → Entry → Action
deactivate_action kc_id entry = record {
  action_type = deactivate;
  user = removed_user kc_id entry;
  existing_mas = entry.mas_id;
  state_status = entry.status;
  state_last_error = entry.last_error;
  state_last_applied = entry.last_applied;
  profile_label = "";
  profile_id = entry.profile_id;
}

-- The `IDs` of the users, as the map `present` holds them.
unfoldable pub user_ids : List User → List String
user_ids [] = []
user_ids (u ∷ users) = u.id ∷ user_ids users

-- The tests of the loop over the tracked identities.
unfoldable pub removal : List String → String → Option Entry → List Action
removal present kc_id none = []
removal present kc_id (some entry) =
    if has kc_id present
    then []
    else if entry.status == status_deactivated
    then []
    else if entry.mas_id == ""
    then []
    else deactivate_action kc_id entry ∷ []

unfoldable pub removals : List String → Dict Entry → List String → List Action
unfolding removal
removals present entries [] = []
removals present entries (kc_id ∷ ids) =
    removal present kc_id (Dict.lookup kc_id entries) ++ removals present entries ids

module _ ⦃c : CaseTable⦄ (S : Store) (resolver : ProfileResolver) where
  -- The rest of the loop body for a user whose profile is known.
  unfoldable pub plan_known :
      User → ProfileResolution → Option Entry → S.State → List Action × S.State
  plan_known u resolution none st = (create_action u resolution ∷ [], st)
  plan_known u resolution (some entry) st =
      if not (entry.profile_id == "") && not (entry.profile_id == resolution.profile_id)
      then ([], (S.save st u.id (mismatch_entry u resolution entry)).1)
      else if entry.profile_id == ""
      then (let entry' = record entry { profile_id = resolution.profile_id } in
          (update_action u resolution entry' ∷ [], (S.save st u.id entry').1))
      else (update_action u resolution entry ∷ [], st)

  unfoldable pub plan_user : User → S.State → List Action × S.State
  unfolding plan_known
  plan_user u st =
      let (resolution, known) = resolve resolver u.mas_profile in
      if known then plan_known u resolution (S.lookup st u.id) st else ([], st)

  unfoldable pub plan : List User → S.State → List Action × S.State
  unfolding plan_user
  plan [] st = ([], st)
  plan (u ∷ users) st =
      let (first, st') = plan_user u st in
      let (rest, st'') = plan users st' in (first ++ rest, st'')

module _ (S : Store) where
  unfoldable pub plan_removals : List User → S.State → Result (List Action)
  unfolding removals user_ids
  plan_removals scoped st = elim (wrap_result "list state entries" (S.list st)) [
    | err e ↦ err e
    | ok entries ↦ ok (removals (user_ids scoped) entries (sort_strings (keys entries)))
  ]
