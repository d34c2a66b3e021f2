-- ===== src/Mas/Payload.antt =====
-- services/scim-bridge/internal/mas/payload.go, and the SCIM types of
-- services/scim-bridge/internal/mas/client.go.
use mas_iam_operator.Prelude.{
  String, ◌<>◌, Bool, true, not, ◌&&◌, ◌||◌, Option, none, some, List, [], ◌∷◌, ◌==◌, if◌then◌else◌,
}
use mas_iam_operator.Keycloak.Users.{User}

pub record EmailResource : Type 0 where
  pub value : String
  pub primary : Bool

pub record NameResource : Type 0 where
  pub given_name : String
  pub family_name : String

pub record UserResource : Type 0 where
  pub schemas : List String
  pub user_name : String
  pub external_id : String
  pub display_name : String
  pub active : Bool
  pub emails : List EmailResource
  pub name : Option NameResource

-- `User` of package mas: a search result.
pub record MasUser : Type 0 where
  pub id : String
  pub external_id : String
  pub user_name : String

-- The values of type `any` that the program puts into a patch operation.
pub data PatchValue : Type 0 where
  no_value : PatchValue
  text : String → PatchValue
  flag : Bool → PatchValue
  emails : List EmailResource → PatchValue

pub record PatchOperation : Type 0 where
  pub op : String
  pub path : String
  pub value : PatchValue

unfoldable pub build_display_name : User → String
build_display_name u =
    if (u.first_name == "") && (u.last_name == "")
    then u.username
    else if u.first_name == ""
    then u.last_name
    else if u.last_name == ""
    then u.first_name
    else u.first_name <> (" " <> u.last_name)

abbrev bare_payload : User → UserResource
bare_payload u = record {
  schemas = "urn:ietf:params:scim:schemas:core:2.0:User" ∷ [];
  user_name = u.username;
  external_id = u.id;
  display_name = "";
  active = u.enabled;
  emails = [];
  name = none;
}

set_name : User → UserResource → UserResource
set_name u payload =
    if not (u.first_name == "") || not (u.last_name == "")
    then record payload {
      name = some (record { given_name = u.first_name; family_name = u.last_name });
      display_name = build_display_name u;
    }
    else payload

set_emails : User → UserResource → UserResource
set_emails u payload =
    if not (u.email == "")
    then record payload { emails = record { value = u.email; primary = true } ∷ [] }
    else payload

unfoldable pub build_user_payload : User → UserResource
unfolding set_name set_emails build_display_name
build_user_payload u = set_emails u (set_name u (bare_payload u))
