-- ===== src/Installer/Cluster/Secrets.antt =====
-- The secrets in tools/mas-iam-installer/internal/oc/client.go, and the arguments of its commands.
use mas_iam_operator.Prelude.{String, ◌<>◌, List, [], ◌∷◌, ◌++◌}
use mas_iam_operator.Errors.{Result, ok, err, wrap_result}
use mas_iam_operator.Prelude.Dict.{Dict}
use mas_iam_operator.Prelude.Sort.{sort_strings}
use mas_iam_operator.Installer.Cluster.{Oc, then_decode}
use mas_iam_operator.Installer.Cluster.Queries.{Decoders}
use mas_iam_operator.Prelude.Dict

module _ (oc : Oc) (d : Decoders) where
  unfoldable pub secret_json : String → String → Result String
  secret_json namespace name =
      oc.output ("get" ∷ "secret" ∷ name ∷ "-n" ∷ namespace ∷ "-o" ∷ "json" ∷ [])

  unfoldable pub secret_keys : String → String → Result (List String)
  unfolding secret_json sort_strings
  secret_keys namespace name = then_decode (secret_json namespace name) λ raw.
      then_decode (wrap_result ("decode secret " <> name) (d.decode_data raw))
        λ payload. ok (sort_strings (Dict.keys payload))

  -- `for key, value := range payload.Data`, up to the first value that is not base64.
  unfoldable pub decode_values : String → Dict String → Dict String → Result (Dict String)
  decode_values name [] decoded = ok decoded
  decode_values name ((key, value) ∷ payload) decoded = elim (d.decode_base64 value) [
    | err e ↦ wrap_result ("decode secret " <> (name <> (" key " <> key))) (err e)
    | ok raw ↦ decode_values name payload (Dict.insert key raw decoded)
  ]

  unfoldable pub secret_data : String → String → Result (Dict String)
  unfolding decode_values
  secret_data namespace name =
      then_decode (oc.output ("get" ∷ "secret" ∷ name ∷ "-n" ∷ namespace ∷ "-o" ∷ "json" ∷ []))
        λ output.
          then_decode (wrap_result ("decode secret " <> name) (d.decode_data output))
            λ payload. decode_values name payload []

-- The arguments of the commands. What follows them on the standard input is not part of them.
unfoldable pub patch_args : String → String → List String
patch_args namespace target =
    "patch" ∷ target ∷ "-n" ∷ namespace ∷ "--type" ∷ "merge" ∷ "--patch-file" ∷ "/dev/stdin" ∷ []

unfoldable pub apply_args : List String
apply_args =
    "apply" ∷ "--server-side" ∷ "--force-conflicts" ∷ "--field-manager=mas-est-installer" ∷ "-f"
    ∷ "-" ∷ []

unfoldable pub delete_ignore_not_found_args : String → String → List String
delete_ignore_not_found_args namespace target =
    "delete" ∷ target ∷ "-n" ∷ namespace ∷ "--ignore-not-found=true" ∷ []

unfoldable pub wait_for_condition_args : String → String → String → String → List String
wait_for_condition_args namespace target condition timeout =
    "wait"
    ∷ ("--for=condition=" <> condition)
    ∷ target
    ∷ "-n"
    ∷ namespace
    ∷ ("--timeout=" <> timeout)
    ∷ []

unfoldable pub rollout_restart_args : String → String → List String
rollout_restart_args namespace target = "rollout" ∷ "restart" ∷ target ∷ "-n" ∷ namespace ∷ []

unfoldable pub rollout_status_args : String → String → String → List String
rollout_status_args namespace target timeout =
    "rollout" ∷ "status" ∷ target ∷ "-n" ∷ namespace ∷ ("--timeout=" <> timeout) ∷ []

unfoldable pub logs_args : String → List String → List String
logs_args namespace args = ("logs" ∷ args) ++ ("-n" ∷ namespace ∷ [])
