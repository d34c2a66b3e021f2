-- ===== src/Installer/Cluster/Queries.antt =====
-- The queries of tools/mas-iam-installer/internal/oc/client.go that the commands make.
use mas_iam_operator.Prelude.{
  ℕ, suc, String, ◌<>◌, Bool, true, false, not, ◌||◌, Option, none, some, List, [], ◌∷◌, ◌==◌,
  starts_with, if◌then◌else◌, is_some, length,
}
use mas_iam_operator.Errors.{Error, error_text, message, Result, ok, err, wrap_result}
use mas_iam_operator.Prelude.Text.{CaseTable, to_lower, contains}
use mas_iam_operator.Prelude.Dict.{Dict}
use mas_iam_operator.Installer.Environment.{ℤ, pos}
use mas_iam_operator.Installer.Cluster.{Oc, then_decode}
use mas_iam_operator.Prelude.Dict

pub record CsvStatus : Type 0 where
  pub name : String
  pub phase : String

pub record DeploymentStatus : Type 0 where
  pub name : String
  pub desired_replicas : ℤ
  pub ready_replicas : ℤ
  pub available_replicas : ℤ

pub record PodStatus : Type 0 where
  pub name : String
  pub phase : String
  pub ready_containers : ℕ
  pub total_containers : ℕ

pub record JobStatus : Type 0 where
  pub name : String
  pub active : ℤ
  pub succeeded : ℤ
  pub failed : ℤ
  pub complete : Bool
  pub failed_condition : Bool
  pub failed_reason : String
  pub failed_message : String

-- `Type` is a keyword, so the field is `condition_type`.
pub record ConditionStatus : Type 0 where
  pub condition_type : String
  pub status : String
  pub reason : String
  pub message : String

pub record PvcStatus : Type 0 where
  pub name : String
  pub phase : String
  pub storage_class : String

-- The answers that are not yet in the form that the program works with.
pub record DeploymentItem : Type 0 where
  pub name : String
  pub replicas : Option ℤ
  pub ready_replicas : ℤ
  pub available_replicas : ℤ

pub record PodItem : Type 0 where
  pub name : String
  pub phase : String
  pub container_ready : List Bool

pub record JobItem : Type 0 where
  pub name : String
  pub active : ℤ
  pub succeeded : ℤ
  pub failed : ℤ
  pub conditions : List ConditionStatus

-- `json.Unmarshal` into the payload of each query, and `encoding/base64`. A version of a resource
-- definition is its properties with the names of the properties that each has.
pub record Decoders : Type 0 where
  pub decode_crd : String → Result (List (Dict (Dict (Unit {0}))))
  pub decode_csvs : String → Result (List CsvStatus)
  pub decode_csv : String → Result CsvStatus
  pub decode_names : String → Result (List String)
  pub decode_subscription : String → Result String
  pub decode_deployment : String → Result DeploymentItem
  pub decode_pod : String → Result PodItem
  pub decode_job : String → Result JobItem
  pub decode_pvcs : String → Result (List PvcStatus)
  pub decode_conditions : String → Result (List ConditionStatus)
  pub decode_data : String → Result (Dict String)
  pub decode_base64 : String → Result String

unfoldable pub supports_oidc : List (Dict (Dict (Unit {0}))) → Bool
supports_oidc [] = false
supports_oidc (version ∷ versions) =
    elim (Dict.lookup "spec" version) [
      | none ↦ false
      | some properties ↦ is_some (Dict.lookup "oidc" properties)
    ]
    || supports_oidc versions

-- The first name with the prefix, "" for none.
unfoldable pub first_with_prefix : String → List String → String
first_with_prefix prefix [] = ""
first_with_prefix prefix (name ∷ names) =
    let rest = first_with_prefix prefix names in if starts_with name prefix then name else rest

unfoldable pub deployment_of : DeploymentItem → DeploymentStatus
deployment_of item = record {
  name = item.name;
  desired_replicas = elim item.replicas [ none ↦ pos 1 | some n ↦ n ];
  ready_replicas = item.ready_replicas;
  available_replicas = item.available_replicas;
}

count_true : List Bool → ℕ
count_true [] = 0
count_true (true ∷ bs) = suc (count_true bs)
count_true (false ∷ bs) = count_true bs

unfoldable pub pod_of : PodItem → PodStatus
unfolding count_true
pod_of item = record {
  name = item.name;
  phase = item.phase;
  ready_containers = count_true item.container_ready;
  total_containers = length item.container_ready;
}

-- A round of the loop over the conditions of a job.
unfoldable pub add_condition : ConditionStatus → JobStatus → JobStatus
add_condition c s =
    if not (c.status == "True")
    then s
    else if c.condition_type == "Complete"
    then record s { complete = true }
    else if c.condition_type == "Failed"
    then record s { failed_condition = true; failed_reason = c.reason; failed_message = c.message }
    else s

unfoldable pub add_conditions : List ConditionStatus → JobStatus → JobStatus
unfolding add_condition
add_conditions [] s = s
add_conditions (c ∷ cs) s = add_conditions cs (add_condition c s)

unfoldable pub job_of : JobItem → JobStatus
unfolding add_conditions
job_of item = add_conditions item.conditions (record {
  name = item.name;
  active = item.active;
  succeeded = item.succeeded;
  failed = item.failed;
  complete = false;
  failed_condition = false;
  failed_reason = "";
  failed_message = "";
})

-- On an error that is not nil.
module _ ⦃u : CaseTable⦄ where
  unfoldable pub is_not_found : Error → Bool
  unfolding to_lower contains error_text
  is_not_found e =
      let value = to_lower (error_text e) in contains value "notfound" || contains value "not found"

module _ (oc : Oc) (d : Decoders) where
  -- `oc` with its arguments, and the answer decoded.
  abbrev ask {ℓ} : {A : Type ℓ} → List String → String → (String → Result A) → Result A
  ask args what decode = then_decode (oc.output args) λ text. wrap_result what (decode text)

  abbrev get_one : String → String → String → List String
  get_one kind name namespace = "get" ∷ kind ∷ name ∷ "-n" ∷ namespace ∷ "-o" ∷ "json" ∷ []

  unfoldable pub idp_cfg_supports_oidc : Result Bool
  unfolding supports_oidc
  idp_cfg_supports_oidc =
      then_decode
        (ask ("get" ∷ "crd" ∷ "idpcfgs.config.mas.ibm.com" ∷ "-o" ∷ "json" ∷ [])
          "decode idpcfg CRD schema" d.decode_crd)
        λ versions. ok (supports_oidc versions)

  unfoldable pub subscription_current_csv : String → Result String
  subscription_current_csv namespace =
      ask (get_one "subscription.operators.coreos.com" "mas-iam-operator" namespace)
        "decode subscription mas-iam-operator" d.decode_subscription

  unfoldable pub csv_status_by_name : String → String → Result CsvStatus
  csv_status_by_name namespace name =
      ask (get_one "csv" name namespace) ("decode csv " <> name) d.decode_csv

  unfoldable pub find_csv_by_name_prefix : String → String → Result String
  unfolding first_with_prefix
  find_csv_by_name_prefix namespace prefix =
      then_decode
        (ask ("get" ∷ "csv" ∷ "-n" ∷ namespace ∷ "-o" ∷ "json" ∷ []) "decode csv list"
          d.decode_names)
        λ names. ok (first_with_prefix prefix names)

  -- `err == nil && name != ""`
  found_name : Result String → Option String
  found_name (err e) = none
  found_name (ok name) = if name == "" then none else some name

  -- The answer for a name that is found, and otherwise another one.
  csv_or : String → Option String → Result CsvStatus → Result CsvStatus
  unfolding csv_status_by_name
  csv_or namespace none other = other
  csv_or namespace (some name) other = csv_status_by_name namespace name

  csv_listed : String → List CsvStatus → Result CsvStatus
  unfolding csv_or found_name find_csv_by_name_prefix
  csv_listed namespace (csv ∷ csvs) = ok csv
  csv_listed namespace [] =
      csv_or namespace (found_name (find_csv_by_name_prefix namespace "mas-iam-operator.v"))
        (err (message ("csv not found in namespace " <> namespace)))

  unfoldable pub csv_phase : String → Result CsvStatus
  unfolding csv_or found_name subscription_current_csv csv_listed
  csv_phase namespace = csv_or namespace (found_name (subscription_current_csv namespace)) (
      then_decode
        (ask
          ("get"
            ∷ "csv"
            ∷ "-n"
            ∷ namespace
            ∷ "-l"
            ∷ ("operators.coreos.com/mas-iam-operator." <> namespace)
            ∷ "-o"
            ∷ "json"
            ∷ [])
          "decode csv list" d.decode_csvs)
        λ csvs. csv_listed namespace csvs)

  unfoldable pub deployment : String → String → Result DeploymentStatus
  unfolding deployment_of
  deployment namespace name =
      then_decode
        (ask (get_one "deployment" name namespace) ("decode deployment " <> name)
          d.decode_deployment)
        λ item. ok (deployment_of item)

  unfoldable pub pod : String → String → Result PodStatus
  unfolding pod_of
  pod namespace name =
      then_decode (ask (get_one "pod" name namespace) ("decode pod " <> name) d.decode_pod)
        λ item. ok (pod_of item)

  unfoldable pub job : String → String → Result JobStatus
  unfolding job_of
  job namespace name =
      then_decode (ask (get_one "job" name namespace) ("decode job " <> name) d.decode_job)
        λ item. ok (job_of item)

  unfoldable pub pvcs : String → Result (List PvcStatus)
  pvcs namespace =
      ask ("get" ∷ "pvc" ∷ "-n" ∷ namespace ∷ "-o" ∷ "json" ∷ []) "decode pvc list" d.decode_pvcs

  unfoldable pub object_storage_cfg_conditions : String → String → Result (List ConditionStatus)
  object_storage_cfg_conditions namespace name =
      ask (get_one "objectstoragecfg" name namespace) ("decode objectstoragecfg " <> name)
        d.decode_conditions

  -- A nil map is an empty one.
  unfoldable pub config_map_data : String → String → Result (Dict String)
  config_map_data namespace name =
      ask (get_one "configmap" name namespace) ("decode configmap " <> name) d.decode_data
