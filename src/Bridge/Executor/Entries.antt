-- ===== src/Bridge/Executor/Entries.antt =====
-- The entries that the executor saves, the filters and the patch that it sends:
-- services/scim-bridge/internal/bridge/executor.go.
use mas_iam_operator.Prelude.{String, ◌<>◌, true, false, List, [], ◌∷◌, if◌then◌else◌}
use mas_iam_operator.Errors.{ResponseError}
use mas_iam_operator.Mas.Payload.{UserResource, PatchOperation, flag}
use mas_iam_operator.State.Entry.{
  Snapshot, is_zero, Entry, status_ok, status_error, status_deactivated,
}
use mas_iam_operator.Bridge.Patch.{snapshot_from_payload, replace_op}
use mas_iam_operator.Bridge.Planner.{Action}

-- `fmt.Sprintf("%s: %s", respErr.Status, respErr.Body)`
abbrev pub failure_text : ResponseError → String
failure_text r = r.status <> (": " <> r.body)

-- The entry of a user whose MAS document is known to be the payload's.
abbrev pub synced_entry : Action → String → UserResource → Entry
synced_entry a mas_id payload = record {
  mas_id = mas_id;
  profile_id = a.profile_id;
  status = status_ok;
  last_error = "";
  username = a.user.username;
  last_applied = snapshot_from_payload payload a.profile_id;
}

-- The entry of an action that failed: with the MAS identity and the snapshot that are kept.
abbrev pub failed_entry : Action → String → Snapshot → String → Entry
failed_entry a mas_id snapshot text = record {
  mas_id = mas_id;
  profile_id = a.profile_id;
  status = status_error;
  last_error = text;
  username = a.user.username;
  last_applied = snapshot;
}

unfoldable pub deactivated_snapshot : Snapshot → Snapshot
deactivated_snapshot prev =
    if is_zero prev then prev else record prev { active = false; has_active = true }

abbrev pub tombstone : Action → Entry
tombstone a = record {
  mas_id = a.existing_mas;
  profile_id = a.profile_id;
  status = status_deactivated;
  last_error = "";
  username = a.user.username;
  last_applied = deactivated_snapshot a.state_last_applied;
}

abbrev pub external_id_filter : Action → String
external_id_filter a = "externalId eq \"" <> (a.user.id <> "\"")

abbrev pub user_name_filter : Action → String
user_name_filter a = "userName eq \"" <> (a.user.username <> "\"")

-- The entry of an update that a patch has made.
abbrev pub patched_entry : Action → Snapshot → Entry
patched_entry a snapshot = record {
  mas_id = a.existing_mas;
  profile_id = a.profile_id;
  status = status_ok;
  last_error = "";
  username = a.user.username;
  last_applied = snapshot;
}

abbrev pub deactivate_ops : List PatchOperation
deactivate_ops = replace_op "active" (flag false) ∷ []
