-- ===== src/Keycloak/Users.antt =====
-- Users, groups and the mapping of their wire forms: `userPayload`, `mapUsers`, `flattenGroups`,
-- `firstAttribute` of services/scim-bridge/internal/keycloak/client.go.
use mas_iam_operator.Prelude.{
  String, Bool, not, ◌&&◌, Option, none, some, List, [], ◌∷◌, ◌==◌, if◌then◌else◌,
}
use mas_iam_operator.Prelude.Text.{trim_space}
use mas_iam_operator.Prelude.Dict.{Dict}
use mas_iam_operator.Config.Settings.{KeycloakConfig}
use mas_iam_operator.Prelude.Dict

pub record User : Type 0 where
  pub id : String
  pub username : String
  pub email : String
  pub enabled : Bool
  pub first_name : String
  pub last_name : String
  pub attributes : Dict (List String)
  pub mas_profile : String
  pub federation_link : String

-- A missing JSON object is a nil map.
pub record UserPayload : Type 0 where
  pub id : String
  pub username : String
  pub email : String
  pub enabled : Bool
  pub first_name : String
  pub last_name : String
  pub attributes : Option (Dict (List String))
  pub federation_link : String

unfoldable pub normalize_attributes : Option (Dict (List String)) → Dict (List String)
normalize_attributes none = []
normalize_attributes (some attrs) = attrs

-- The loop over the values, and the `values[0]` that follows it.
first_nonblank : String → List String → String
unfolding trim_space
first_nonblank default [] = default
first_nonblank default (v ∷ values) =
    if not (trim_space v == "") then v else first_nonblank default values

first_value : List String → String
unfolding first_nonblank
first_value [] = ""
first_value (v ∷ []) = v
first_value (v ∷ w ∷ values) = first_nonblank v (v ∷ w ∷ values)

unfoldable pub first_attribute : Dict (List String) → String → String
unfolding first_value Dict.lookup
first_attribute attrs key = elim (Dict.lookup key attrs) [
  | none ↦ ""
  | some values ↦ first_value values
]

-- The test that skips a user who is owned by a federation provider.
unfoldable pub is_skipped : KeycloakConfig → UserPayload → Bool
unfolding trim_space
is_skipped cfg u = not cfg.include_federated_users && not (trim_space u.federation_link == "")

unfoldable pub map_user : UserPayload → User
unfolding normalize_attributes first_attribute
map_user u = record {
  id = u.id;
  username = u.username;
  email = u.email;
  enabled = u.enabled;
  first_name = u.first_name;
  last_name = u.last_name;
  attributes = normalize_attributes u.attributes;
  mas_profile = first_attribute (normalize_attributes u.attributes) "masProfile";
  federation_link = u.federation_link;
}

unfoldable pub map_users : KeycloakConfig → List UserPayload → List User
unfolding is_skipped map_user
map_users cfg [] = []
map_users cfg (u ∷ payload) =
    let rest = map_users cfg payload in if is_skipped cfg u then rest else map_user u ∷ rest
