-- ===== src/Installer/Cluster.antt =====
-- The queries of the cluster that the checks before an installation make:
-- tools/mas-iam-installer/internal/oc/client.go.
pub mod Queries
pub mod Secrets
pub mod Instances
use mas_iam_operator.Prelude.{
  String, ◌<>◌, Bool, false, ◌||◌, Option, none, some, List, [], ◌∷◌, ◌==◌, if◌then◌else◌, keep,
}
use mas_iam_operator.Errors.{Error, message, Result, ok, err, wrap_result}
use mas_iam_operator.Prelude.Text.{trim_space}
use mas_iam_operator.Prelude.Dict.{Dict}
use mas_iam_operator.Prelude.Sort.{str_le}
use mas_iam_operator.Installer.Storage.{StorageClass}
use mas_iam_operator.Prelude.Dict

pub record RouteRef : Type 0 where
  pub namespace : String
  pub name : String
  pub host : String

pub record IdpCfgSummary : Type 0 where
  pub name : String
  pub display_name : String

-- The items of the answers, with the fields that the program decodes.
pub record StorageClassItem : Type 0 where
  pub name : String
  pub annotations : Dict String
  pub provisioner : String

-- The command line client: `look_path` finds it, `output` is what it prints at its arguments, and
-- the others decode what it prints. The state of the cluster does not change during the checks.
pub record Oc : Type 0 where
  pub look_path : Option Error
  pub output : List String → Result String
  pub decode_storage_classes : String → Result (List StorageClassItem)
  pub decode_routes : String → Result (List RouteRef)
  pub decode_idp_cfgs : String → Result (List IdpCfgSummary)

abbrev pub then_decode {ℓ κ} : {A : Type ℓ} {B : Type κ} → Result A → (A → Result B) → Result B
then_decode (ok a) f = f a
then_decode (err e) f = err e

-- `annotations[name] == "true"`
is_marked : String → StorageClassItem → Bool
is_marked name item = elim (Dict.lookup name item.annotations) [
  | none ↦ false
  | some v ↦ v == "true"
]

class_of : StorageClassItem → StorageClass
unfolding is_marked
class_of item = record {
  name = item.name;
  is_default =
      is_marked "storageclass.kubernetes.io/is-default-class" item
      || is_marked "storageclass.beta.kubernetes.io/is-default-class" item;
  provisioner = item.provisioner;
}

classes_of : List StorageClassItem → List StorageClass
unfolding class_of
classes_of [] = []
classes_of (item ∷ items) = class_of item ∷ classes_of items

insert_summary : IdpCfgSummary → List IdpCfgSummary → List IdpCfgSummary
unfolding str_le
insert_summary c [] = c ∷ []
insert_summary c (d ∷ ds) =
    let rest = insert_summary c ds in if str_le c.name d.name then c ∷ d ∷ ds else d ∷ rest

-- `sort.Slice` by name. A namespace has no two objects of one kind and name.
sort_summaries : List IdpCfgSummary → List IdpCfgSummary
unfolding insert_summary
sort_summaries [] = []
sort_summaries (c ∷ cs) = insert_summary c (sort_summaries cs)

module _ (oc : Oc) where
  unfoldable pub check_available : Option Error
  check_available = elim oc.look_path [
    | none ↦ none
    | some e ↦ some (message "oc not found on PATH")
  ]

  unfoldable pub who_am_i : Result (String × String)
  unfolding trim_space
  who_am_i =
      elim (wrap_result "cluster login check failed; run 'oc login' first"
        (oc.output ("whoami" ∷ []))) [
          | err e ↦ err e
          | ok user ↦
              elim (wrap_result "unable to determine current cluster server; run 'oc login' first"
                (oc.output ("whoami" ∷ "--show-server" ∷ []))) [
                  | err e ↦ err e
                  | ok server ↦ ok (trim_space user, trim_space server)
                ]
        ]

  unfoldable pub storage_classes : Result (List StorageClass)
  unfolding classes_of
  storage_classes = then_decode (oc.output ("get" ∷ "sc" ∷ "-o" ∷ "json" ∷ [])) λ text.
      then_decode (wrap_result "decode storage classes" (oc.decode_storage_classes text))
        λ items. ok (classes_of items)

  unfoldable pub routes_by_host : String → Result (List RouteRef)
  routes_by_host host =
      then_decode (oc.output ("get" ∷ "route" ∷ "-A" ∷ "-o" ∷ "json" ∷ [])) λ text.
        then_decode (wrap_result "decode routes" (oc.decode_routes text))
          λ items. ok (keep (λ r. r.host == host) items)

  unfoldable pub idp_cfgs : String → Result (List IdpCfgSummary)
  unfolding sort_summaries
  idp_cfgs namespace =
      then_decode
        (oc.output ("get" ∷ "idpcfgs.config.mas.ibm.com" ∷ "-n" ∷ namespace ∷ "-o" ∷ "json" ∷ []))
        λ text.
          then_decode
            (wrap_result ("decode idpcfgs in namespace " <> namespace) (oc.decode_idp_cfgs text))
            λ items. ok (sort_summaries items)
