-- ===== src/Installer/Cluster/Instances.antt =====
-- The instances of MAS and the workspaces of Manage on the cluster:
-- tools/mas-iam-installer/internal/oc/client.go.
use Prim.Native.Char.{Char, code}
use mas_iam_operator.Prelude.{
  String, ◌<>◌, Bool, true, false, not, ◌&&◌, ◌||◌, Option, none, some, List, [], ◌∷◌, ◌==◌,
  starts_with, if◌then◌else◌, nat_beq,
}
use mas_iam_operator.Errors.{Result, ok, err, wrap_result}
use mas_iam_operator.Prelude.Text.{trim_space, split_2}
use mas_iam_operator.Prelude.Affix.{trim_prefix, has_suffix, trim_suffix}
use mas_iam_operator.Prelude.Sort.{str_le}
use mas_iam_operator.Installer.Cluster.{Oc, RouteRef, then_decode}

pub record MasRoute : Type 0 where
  pub instance_id : String
  pub namespace : String
  pub name : String
  pub host : String

pub record ManageWorkspace : Type 0 where
  pub name : String
  pub namespace : String
  pub instance_id : String
  pub workspace_id : String

unfoldable pub scim_base_url : MasRoute → String
scim_base_url r = "https://" <> (r.host <> "/scim/v2")

-- `^mas-(.+)-core$`. The name of a namespace has no line break.
unfoldable pub core_instance : String → Option String
unfolding trim_prefix has_suffix trim_suffix
core_instance namespace =
    let rest = trim_prefix "mas-" namespace in
    let instance_id = trim_suffix "-core" rest in
    if starts_with namespace "mas-" && has_suffix "-core" rest && not (instance_id == "")
    then some instance_id
    else none

-- A round of the loop over the routes.
unfoldable pub mas_route : RouteRef → Option MasRoute
unfolding core_instance
mas_route r = elim (core_instance r.namespace) [
  | none ↦ none
  | some instance_id ↦
      if r.name == instance_id <> "-api"
      then some (record {
        instance_id = instance_id;
        namespace = r.namespace;
        name = r.name;
        host = r.host;
      })
      else none
]

is_dash : Char → Bool
is_dash c = nat_beq (code c) b'-'

-- A round of the loop over the workspaces, at their name and namespace.
unfoldable pub manage_workspace : String × String → Option ManageWorkspace
unfolding is_dash split_2 trim_space
manage_workspace (name, namespace) = elim (split_2 is_dash name) [
  | none ↦ none
  | some (instance_id, workspace_id) ↦
      if trim_space instance_id == "" || trim_space workspace_id == ""
      then none
      else some (record {
        name = name;
        namespace = namespace;
        instance_id = instance_id;
        workspace_id = workspace_id;
      })
]

-- The order of the `sort.Slice`: by the first texts that differ. Items with the same keys stay in the
-- order of the answer here; the order that the sort leaves them in is not documented.
unfoldable pub keys_le : List String → List String → Bool
unfolding str_le
keys_le [] ks = true
keys_le (j ∷ js) [] = false
keys_le (j ∷ js) (k ∷ ks) = let rest = keys_le js ks in if j == k then rest else str_le j k

route_keys : MasRoute → List String
route_keys r = r.instance_id ∷ r.namespace ∷ r.name ∷ []

workspace_keys : ManageWorkspace → List String
workspace_keys w = w.instance_id ∷ w.workspace_id ∷ w.name ∷ []

module _ {ℓ} {A : Type ℓ} (keys_of : A → List String) where
  insert_by : A → List A → List A
  unfolding keys_le
  insert_by a [] = a ∷ []
  insert_by a (b ∷ bs) =
      let rest = insert_by a bs in if keys_le (keys_of a) (keys_of b) then a ∷ b ∷ bs else b ∷ rest

  unfoldable pub sort_by : List A → List A
  unfolding insert_by
  sort_by [] = []
  sort_by (a ∷ xs) = insert_by a (sort_by xs)

module _ {ℓ κ} {A : Type ℓ} {B : Type κ} (f : A → Option B) where
  unfoldable pub pick : List A → List B
  pick [] = []
  pick (a ∷ xs) = let rest = pick xs in elim (f a) [ none ↦ rest | some b ↦ b ∷ rest ]

module _ (oc : Oc) where
  unfoldable pub mas_routes : Result (List MasRoute)
  unfolding mas_route route_keys sort_by pick
  mas_routes = then_decode (oc.output ("get" ∷ "route" ∷ "-A" ∷ "-o" ∷ "json" ∷ [])) λ text.
      then_decode (wrap_result "decode routes" (oc.decode_routes text))
        λ items. ok (sort_by route_keys (pick mas_route items))

  -- The answer under the full name of the resource, or else under the short one.
  list_workspaces : Result String
  list_workspaces =
      elim (oc.output ("get" ∷ "manageworkspaces.apps.mas.ibm.com" ∷ "-A" ∷ "-o" ∷ "json" ∷ [])) [
        | ok text ↦ ok text
        | err e ↦ oc.output ("get" ∷ "manageworkspaces" ∷ "-A" ∷ "-o" ∷ "json" ∷ [])
      ]

  -- `decode` gives the name and the namespace of each item.
  unfoldable pub manage_workspaces :
      (String → Result (List (String × String))) → Result (List ManageWorkspace)
  unfolding manage_workspace workspace_keys sort_by pick list_workspaces
  manage_workspaces decode = then_decode list_workspaces λ text.
      then_decode (wrap_result "decode manageworkspaces" (decode text))
        λ items. ok (sort_by workspace_keys (pick manage_workspace items))
