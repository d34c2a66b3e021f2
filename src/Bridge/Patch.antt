-- ===== src/Bridge/Patch.antt =====
-- services/scim-bridge/internal/bridge/patch.go
pub mod Effect
use mas_iam_operator.Prelude.{
  String, Bool, true, false, not, ◌&&◌, ◌||◌, Option, none, some, List, [], ◌∷◌, ◌++◌, ◌==◌,
  if◌then◌else◌,
}
use mas_iam_operator.State.Entry.{Snapshot}
use mas_iam_operator.Mas.Payload.{
  UserResource, EmailResource, NameResource, PatchOperation, PatchValue, no_value, text, flag,
  emails,
}

-- `payload.Name.GivenName` and `payload.Name.FamilyName`, where there is a name.
given : Option NameResource → String
given none = ""
given (some n) = n.given_name

family : Option NameResource → String
family none = ""
family (some n) = n.family_name

-- `payload.Emails[0].Value`, where there is one.
first_email : List EmailResource → String
first_email [] = ""
first_email (e ∷ rest) = e.value

any_email : List EmailResource → Bool
any_email [] = false
any_email (e ∷ rest) = true

unfoldable pub snapshot_from_payload : UserResource → String → Snapshot
unfolding given family first_email any_email
snapshot_from_payload payload profile_id = record {
  user_name = payload.user_name;
  given_name = given payload.name;
  family_name = family payload.name;
  email = first_email payload.emails;
  has_email = any_email payload.emails;
  active = payload.active;
  has_active = true;
  profile_id = profile_id;
}

abbrev pub replace_op : String → PatchValue → PatchOperation
replace_op path value = record { op = "replace"; path = path; value = value }

abbrev pub add_op : String → PatchValue → PatchOperation
add_op path value = record { op = "add"; path = path; value = value }

abbrev pub remove_op : String → PatchOperation
remove_op path = record { op = "remove"; path = path; value = no_value }

-- `prev.X != next.X` for Booleans.
unfoldable pub differ : Bool → Bool → Bool
differ true b = not b
differ false b = b

unfoldable pub user_name_ops : String → String → List PatchOperation
user_name_ops prev next =
    if not (prev == "") && not (prev == next)
    then replace_op "userName" (text next) ∷ []
    else if (prev == "") && not (next == "")
    then add_op "userName" (text next) ∷ []
    else []

-- The operations for a part of the name at a path.
unfoldable pub name_ops : String → String → String → List PatchOperation
name_ops path prev next =
    if not (prev == next)
    then (if (next == "") && not (prev == "")
        then remove_op path ∷ []
        else if not (next == "")
        then replace_op path (text next) ∷ []
        else [])
    else []

unfoldable pub email_ops : Snapshot → Snapshot → List PatchOperation
unfolding differ
email_ops prev next =
    if differ prev.has_email next.has_email || not (prev.email == next.email)
    then (if next.has_email
        then replace_op "emails" (emails (record { value = next.email; primary = true } ∷ [])) ∷ []
        else if prev.has_email
        then remove_op "emails" ∷ []
        else [])
    else []

unfoldable pub active_ops : Snapshot → Snapshot → List PatchOperation
unfolding differ
active_ops prev next =
    if prev.has_active && differ prev.active next.active
    then replace_op "active" (flag next.active) ∷ []
    else if not prev.has_active && next.has_active
    then add_op "active" (flag next.active) ∷ []
    else []

unfoldable pub diff_ops : Snapshot → Snapshot → List PatchOperation
unfolding user_name_ops name_ops email_ops active_ops
diff_ops prev next =
    user_name_ops prev.user_name next.user_name
    ++ (name_ops "name.givenName" prev.given_name next.given_name
        ++ (name_ops "name.familyName" prev.family_name next.family_name
            ++ (email_ops prev next ++ active_ops prev next)))

unfoldable pub diff_to_patch : Snapshot → UserResource → String → Snapshot × List PatchOperation
unfolding snapshot_from_payload diff_ops
diff_to_patch prev payload profile_id =
    let next = snapshot_from_payload payload profile_id in (next, diff_ops prev next)
