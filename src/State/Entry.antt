-- ===== src/State/Entry.antt =====
-- `Entry` and `Snapshot` of services/scim-bridge/internal/state/store.go.
use mas_iam_operator.Prelude.{String, ◌≡◌, Bool, false, not, ◌&&◌, arith, ◌==◌, if◌then◌else◌}

pub record Snapshot : Type 0 where
  pub user_name : String
  pub given_name : String
  pub family_name : String
  pub email : String
  pub has_email : Bool
  pub active : Bool
  pub has_active : Bool
  pub profile_id : String

-- The zero value `Snapshot{}`.
abbrev pub no_snapshot : Snapshot
no_snapshot = record {
  user_name = "";
  given_name = "";
  family_name = "";
  email = "";
  has_email = false;
  active = false;
  has_active = false;
  profile_id = "";
}

unfoldable pub is_zero : Snapshot → Bool
is_zero s =
    not s.has_active
    && (s.user_name == "")
    && not s.has_email
    && (s.given_name == "")
    && (s.family_name == "")

pub record Entry : Type 0 where
  pub mas_id : String
  pub profile_id : String
  pub status : String
  pub last_error : String
  pub username : String
  pub last_applied : Snapshot

abbrev pub status_ok : String
status_ok = "ok"

abbrev pub status_error : String
status_error = "error"

abbrev pub status_deactivated : String
status_deactivated = "deactivated"

unfoldable pub normalize_snapshot : Snapshot → String → Snapshot
normalize_snapshot s default_profile_id =
    if s.profile_id == "" then record s { profile_id = default_profile_id } else s

-- `if entry.Status == ""`
set_status : Entry → Entry
set_status e = if e.status == "" then record e { status = status_ok } else e

-- `if entry.Status == StatusOK`
clear_error : Entry → Entry
clear_error e = if e.status == status_ok then record e { last_error = "" } else e

-- `if entry.ProfileID == ""`
set_profile : String → Entry → Entry
set_profile default_profile_id e =
    if e.profile_id == "" then record e { profile_id = default_profile_id } else e

unfoldable pub normalize_entry : Entry → String → Entry
unfolding set_status clear_error set_profile normalize_snapshot
normalize_entry entry default_profile_id =
    let e = set_profile default_profile_id (clear_error (set_status entry)) in
    record e { last_applied = normalize_snapshot e.last_applied default_profile_id }

-- Normalizing an entry twice with one default profile is normalizing it once.
pub normalize_entry_idem :
    (e : Entry) (d : String) → normalize_entry (normalize_entry e d) d ≡ normalize_entry e d
unfolding normalize_entry
normalize_entry_idem e d = ground arith

module _ (e : Entry) (d : String) where
  pub mas_id-normalize_entry : (normalize_entry e d).mas_id ≡ e.mas_id
  unfolding normalize_entry
  mas_id-normalize_entry = ground arith

  pub username-normalize_entry : (normalize_entry e d).username ≡ e.username
  unfolding normalize_entry
  username-normalize_entry = ground arith

  pub status-normalize_entry :
      (normalize_entry e d).status ≡ (if e.status == "" then status_ok else e.status)
  unfolding normalize_entry
  status-normalize_entry = ground arith
