-- ===== src/Tests/Fixtures.antt =====
-- A directory, a MAS server that counts its requests, and entries, for the runs and the examples.
use mas_iam_operator.Installer.Components.{Quoting}
use mas_iam_operator.Prelude.{
  ◌<>◌, ℕ, suc, String, Bool, true, false, Option, none, List, [], ◌∷◌, length, take, drop,
}
use mas_iam_operator.Prelude.Text.{CaseTable}
use mas_iam_operator.Errors.{Error, response, ok}
use mas_iam_operator.Config.Settings.{KeycloakConfig, default_keycloak}
use mas_iam_operator.Keycloak.Users.{User, UserPayload, map_users}
use mas_iam_operator.Keycloak.Groups.{Group}
use mas_iam_operator.Mas.Api.{MasApi}
use mas_iam_operator.State.Entry.{Snapshot, Entry}
use mas_iam_operator.State.Api.{Store}
use mas_iam_operator.State.Memory.{memory_store}
use mas_iam_operator.Bridge.Profile.{ProfileResolver, ProfileResolution}
use mas_iam_operator.Bridge.Scope.{KeycloakSource}
use mas_iam_operator.Bridge.Planner.{Action, deactivate_action, update_action, create_action}
use mas_iam_operator.Bridge.Executor.Steps.{World, Executor}

instance pub ascii : CaseTable
ascii = record { lower = λ c. c }

instance pub quoting : Quoting
quoting = record { quote = λ s. "\"" <> (s <> "\"") }

abbrev pub store : Store
store = memory_store "acme"

-- It answers every patch in the same way and accepts everything else.
abbrev pub mas : Option Error → MasApi
mas answer = record {
  Client = Unit {0};
  State = ℕ;
  create_user = λ c p u n. (ok "m9", suc n);
  update_user = λ c p i u n. (none, suc n);
  patch_user = λ c p i ops n. (answer, suc n);
  search_users = λ c p f n. (ok [], suc n);
}

abbrev pub refused : Error
refused = response (record { status_code = 401; status = "401 Unauthorized"; body = "" })

abbrev pub broken : Error
broken = response (record { status_code = 500; status = "500"; body = "down" })

abbrev pub executor : (answer : Option Error) → Bool → Bool → Executor (mas answer)
executor answer dry_run allow_updates = record {
  mas = tt;
  dry_run = dry_run;
  allow_updates = allow_updates;
}

abbrev pub user : String → String → User
user id username = record {
  id = id;
  username = username;
  email = "";
  enabled = true;
  first_name = "Ada";
  last_name = "Byron";
  attributes = [];
  mas_profile = "";
  federation_link = "";
}

abbrev pub ada : User
ada = user "k1" "ada"

abbrev pub bob : User
bob = user "k2" "bob"

abbrev pub snapshot : Snapshot
snapshot = record {
  user_name = "ada";
  given_name = "Augusta";
  family_name = "Byron";
  email = "a@x";
  has_email = true;
  active = true;
  has_active = true;
  profile_id = "acme";
}

abbrev pub entry : String → String → Entry
entry mas_id username = record {
  mas_id = mas_id;
  profile_id = "acme";
  status = "ok";
  last_error = "";
  username = username;
  last_applied = snapshot;
}

abbrev pub entries : store.State
entries = ("k1", entry "m1" "ada") ∷ ("k2", entry "m2" "bob") ∷ []

abbrev pub world : (answer : Option Error) → World store (mas answer)
world answer = record { store = entries; mas = 0 }

abbrev pub resolver : ProfileResolver
resolver = record { default_profile_id = "acme"; require_label = false; mapping = [] }

abbrev pub resolution : ProfileResolution
resolution = record { label = ""; profile_id = "acme"; from_label = false }

abbrev pub removal_of_bob : Action
removal_of_bob = deactivate_action "k2" (entry "m2" "bob")

abbrev pub update_of_ada : Action
update_of_ada = update_action ada resolution (entry "m1" "ada")

abbrev pub creation_of_ada : Action
creation_of_ada = create_action ada resolution

abbrev pub config : KeycloakConfig
config = default_keycloak

abbrev pub payload : String → String → UserPayload
payload id federation_link = record {
  id = id;
  username = id;
  email = "";
  enabled = true;
  first_name = "";
  last_name = "";
  attributes = none;
  federation_link = federation_link;
}

abbrev pub member_payloads : String → List UserPayload
member_payloads id = payload "k1" "" ∷ payload "k2" "ldap" ∷ payload "k3" "" ∷ []

abbrev pub staff : Group
staff = record { id = "g1"; name = "staff"; path = "/staff" }

-- Each of its groups has the same members.
abbrev pub directory : KeycloakSource
directory = record {
  State = Unit {0};
  list_users = λ params s. (ok (ada ∷ []), s);
  list_groups = λ search s. (ok (staff ∷ []), s);
  list_group_members = λ id first max s. (
    ok (
      map_users config (take max (drop first (member_payloads id))),
      length (take max (drop first (member_payloads id))),
    ),
    s,
  );
  realm = "mas";
}
