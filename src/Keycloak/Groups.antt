-- ===== src/Keycloak/Groups.antt =====
-- Groups and the flattening of their tree: `groupPayload` and `flattenGroups` of
-- services/scim-bridge/internal/keycloak/client.go.
use mas_iam_operator.Prelude.{String, ◌≡◌, List, [], ◌∷◌, ◌++◌, ap, ◌∙◌, sym}
use mathlib.Core.List.{append_assoc, append-nil}

pub record Group : Type 0 where
  pub id : String
  pub name : String
  pub path : String

-- `subGroups` of a payload is a list of payloads.
mutual
  pub data GroupPayload : Type 0 where
    group : Group → GroupPayloads → GroupPayload

  pub data GroupPayloads : Type 0 where
    nil : GroupPayloads
    cons : GroupPayload → GroupPayloads → GroupPayloads

unfoldable mutual
  pub flatten_group : GroupPayload → List Group → List Group
  flatten_group (group g sub_groups) out = flatten_groups sub_groups (out ++ (g ∷ []))

  -- The groups of the tree after those of `out`.
  pub flatten_groups : GroupPayloads → List Group → List Group
  flatten_groups nil out = out
  flatten_groups (cons g payload) out = flatten_groups payload (flatten_group g out)

-- The groups of a tree in preorder.
mutual
  pub preorder_group : GroupPayload → List Group
  preorder_group (group g sub_groups) = g ∷ preorder sub_groups

  pub preorder : GroupPayloads → List Group
  preorder nil = []
  preorder (cons g payload) = preorder_group g ++ preorder payload

mutual
  unfolding flatten_group flatten_groups preorder_group preorder

  flatten_group-append :
      (g : GroupPayload) (out : List Group) → flatten_group g out ≡ out ++ preorder_group g
  flatten_group-append (group g sub_groups) out =
      flatten_groups-append sub_groups (out ++ (g ∷ []))
      ∙ append_assoc out (g ∷ []) (preorder sub_groups)

  flatten_groups-append :
      (payload : GroupPayloads) (out : List Group)
      → flatten_groups payload out ≡ out ++ preorder payload
  flatten_groups-append nil out = sym (append-nil out)
  flatten_groups-append (cons g payload) out =
      flatten_groups-append payload (flatten_group g out)
      ∙ ap (λ t. t ++ preorder payload) (flatten_group-append g out)
      ∙ append_assoc out (preorder_group g) (preorder payload)

-- The flattened list is the groups of the tree, subgroups included, each behind its parent.
pub flatten_groups-preorder :
    (payload : GroupPayloads) → flatten_groups payload [] ≡ preorder payload
flatten_groups-preorder payload = flatten_groups-append payload []
