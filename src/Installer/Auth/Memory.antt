-- ===== src/Installer/Auth/Memory.antt =====
-- The memory limit of MAS's pod for identity providers: `ensureIDPCfgMemoryLimit` of
-- tools/mas-iam-installer/internal/app/mas_auth_api.go.
use mas_iam_operator.Prelude.{
  String, ◌<>◌, ◌≡◌, refl, ◌||◌, Option, none, some, List, [], ◌∷◌, ◌==◌, arith, if◌then◌else◌,
}
use mas_iam_operator.Errors.{Error, wrapped, Result, ok, err, wrap_result}
use mas_iam_operator.Prelude.Text.{trim_space, equal_fold}
use mas_iam_operator.Prelude.Dict.{Dict}

-- An entry of `podTemplates`: one that was read, with its name ("" for none) and its text, or one
-- that is built, with its name, its container, and the requests and the limits of the container.
pub data PodTemplate : Type 0 where
  existing : String → String → PodTemplate
  built : String → String → Dict String → Dict String → PodTemplate

unfoldable pub template_name : PodTemplate → String
template_name (existing name raw) = name
template_name (built name container requests limits) = name

unfoldable pub idp_cfg_pod_template : String → PodTemplate
idp_cfg_pod_template memory_limit =
    built "entitymgr-idpcfg" "manager" (("cpu", "0.01") ∷ ("memory", "64Mi") ∷ [])
      (("cpu", "0.2") ∷ ("memory", memory_limit) ∷ [])

-- The loop over the entries and the `append` after it.
unfoldable pub upsert : PodTemplate → List PodTemplate → List PodTemplate
unfolding template_name
upsert desired [] = desired ∷ []
upsert desired (template ∷ templates) =
    let rest = upsert desired templates in
    if template_name template == "entitymgr-idpcfg" then desired ∷ templates else template ∷ rest

-- Writing the same limit again changes nothing.
pub upsert_idem :
    (limit : String) (templates : List PodTemplate)
    → upsert (idp_cfg_pod_template limit) (upsert (idp_cfg_pod_template limit) templates)
      ≡ upsert (idp_cfg_pod_template limit) templates
unfolding upsert idp_cfg_pod_template
upsert_idem limit [] = refl
upsert_idem limit (template ∷ templates) = ground (arith, upsert_idem limit templates)

-- `oc` at a state of the cluster, and the decoder and the encoder of the entries.
pub record SuiteCluster : Type 1 where
  pub State : Type 0
  pub output : List String → State → Result String × State
  pub decode_templates : String → Result (List PodTemplate)
  pub encode_templates : List PodTemplate → Result String

module _ (suite : SuiteCluster) (namespace instance_id : String) where
  -- The entries in the answer of the query.
  templates_of : String → Result (List PodTemplate)
  unfolding trim_space
  templates_of current =
      let trimmed = trim_space current in
      if trimmed == "" || trimmed == "[]" || trimmed == "null"
      then ok []
      else wrap_result "decode Suite podTemplates" (suite.decode_templates trimmed)

  patch_suite : Result String → suite.State → Option Error × suite.State
  patch_suite (err e) n = (some e, n)
  patch_suite (ok raw) n =
      let (patched, n') =
        suite.output
          ("patch"
            ∷ "suite"
            ∷ instance_id
            ∷ "-n"
            ∷ namespace
            ∷ "--type=json"
            ∷ "-p"
            ∷ ("[{\"op\":\"replace\",\"path\":\"/spec/podTemplates\",\"value\":" <> (raw <> "}]"))
            ∷ [])
          n in
      (elim patched [ err e ↦ some (wrapped "patch Suite podTemplates" e) | ok text ↦ none ], n')

  write_limit : String → Result String × suite.State → Option Error × suite.State
  unfolding templates_of patch_suite upsert idp_cfg_pod_template
  write_limit limit (err e, n) = (
    some (wrapped ("read Suite " <> (namespace <> ("/" <> (instance_id <> " podTemplates")))) e),
    n,
  )
  write_limit limit (ok current, n) = elim (templates_of current) [
    | err e ↦ (some e, n)
    | ok templates ↦
        patch_suite (suite.encode_templates (upsert (idp_cfg_pod_template limit) templates)) n
  ]

  unfoldable pub ensure_idp_cfg_memory_limit : String → suite.State → Option Error × suite.State
  unfolding trim_space equal_fold write_limit
  ensure_idp_cfg_memory_limit memory_limit n =
      let limit = trim_space memory_limit in
      let query =
        "get" ∷ "suite" ∷ instance_id ∷ "-n" ∷ namespace ∷ "-o" ∷ "jsonpath={.spec.podTemplates}"
        ∷ [] in
      let written = write_limit limit (suite.output query n) in
      if limit == "" || equal_fold limit "off" then (none, n) else written
