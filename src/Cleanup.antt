-- ===== src/Cleanup.antt =====
-- services/scim-bridge/cmd/scim-bridge-cleanup/main.go, from the loaded state on. The flags and the
-- printed lines are not modelled.
pub mod Kept
use mas_iam_operator.Prelude.{
  String, Bool, not, ◌||◌, Option, none, some, [], ◌∷◌, ◌==◌, if◌then◌else◌, is_nil,
}
use mas_iam_operator.Prelude.Text.{CaseTable}
use mas_iam_operator.Prelude.Dict.{Dict}
use mas_iam_operator.Errors.{Error, message, ok, err, wrap_error, wrap_result, Exec}
use mas_iam_operator.Http.{Http}
use mas_iam_operator.Config.Settings.{MasConfig}
use mas_iam_operator.Mas.Client.{Client, MasJson, new_client, fetch_token, delete_user}
use mas_iam_operator.State.Entry.{Entry, status_error}
use mas_iam_operator.State.File.{Os, Json, load_from_file, write_to_file}
use mas_iam_operator.Prelude.Dict

-- The entries of status `error` with their keys. Go's order is unspecified.
unfoldable pub collect_error_entries : Dict Entry → Dict Entry
collect_error_entries [] = []
collect_error_entries ((id, entry) ∷ entries) =
    let rest = collect_error_entries entries in
    if entry.status == status_error then (id, entry) ∷ rest else rest

module _ ⦃u : CaseTable⦄ (http : Http) (mas_json : MasJson) where
  unfoldable pub set_cleanup_token : MasConfig → String → MasConfig
  set_cleanup_token cfg token =
      if (cfg.auth_type == "") || (cfg.auth_type == "api-key")
      then record cfg { token = token; auth_type = "jwt" }
      else record cfg { token = token }

  fetch_and_build : MasConfig → Exec http.State Client
  unfolding set_cleanup_token
  fetch_and_build cfg s =
      let (fetched, s') =
        fetch_token http mas_json cfg.base_url cfg.api_token_name cfg.api_token_value s in
      elim (wrap_result "obtain MAS token" fetched) [
        | err e ↦ (err e, s')
        | ok token ↦ (new_client mas_json (set_cleanup_token cfg token), s')
      ]

  unfoldable pub build_mas_client : MasConfig → Exec http.State Client
  unfolding fetch_and_build
  build_mas_client cfg s =
      if (cfg.base_url == "") || (cfg.profile_id == "")
      then (err (message "mas-base-url and mas-profile-id are required when --delete is set"), s)
      else if not (cfg.token == "")
      then (new_client mas_json cfg, s)
      else if (cfg.api_token_name == "") || (cfg.api_token_value == "")
      then (
        err (message "mas-token or mas-api-token-name/value are required when --delete is set"),
        s,
      )
      else fetch_and_build cfg s

  -- The loop: an entry goes when its user is deleted, and stays when the request fails.
  unfoldable pub delete_all :
      Client → Dict Entry → Dict Entry → http.State → Dict Entry × http.State
  delete_all c [] entries s = (entries, s)
  delete_all c ((id, entry) ∷ errors) entries s =
      let (deleted, s') = delete_user http mas_json c entry.profile_id entry.mas_id s in
      delete_all c errors (elim deleted [ ok _ ↦ Dict.erase id entries | err _ ↦ entries ]) s'

  module _ (os : Os) (json : Json) where
    -- The state of the operating system and the network.
    pub record Machine : Type 0 where
      pub disk : os.Disk
      pub net : http.State

    delete_and_write :
        MasConfig → String → Dict Entry → Client → http.State → os.Disk → Option Error × Machine
    unfolding delete_all
    delete_and_write cfg path entries c s disk =
        let (left, s') = delete_all c (collect_error_entries entries) entries s in
        let (failed, disk') = write_to_file os json disk path left cfg.profile_id in
        (wrap_error "write state" failed, record { disk = disk'; net = s' })

    run_loaded : MasConfig → String → Bool → Dict Entry → Machine → Option Error × Machine
    unfolding delete_and_write collect_error_entries build_mas_client
    run_loaded cfg path delete_flag entries m =
        if is_nil (collect_error_entries entries)
        then (none, m)
        else if not delete_flag
        then (none, m)
        else (let (built, s) = build_mas_client cfg m.net in
            elim built [
              | err e ↦ (some e, record m { net = s })
              | ok c ↦ delete_and_write cfg path entries c s m.disk
            ])

    unfoldable pub run : MasConfig → String → Bool → Machine → Option Error × Machine
    unfolding run_loaded
    run cfg path delete_flag m =
        if path == ""
        then (some (message "state-path is required"), m)
        else elim (wrap_result "load state" (load_from_file os json m.disk path cfg.profile_id)) [
          | err e ↦ (some e, m)
          | ok entries ↦ run_loaded cfg path delete_flag entries m
        ]
