-- ===== src/State/Backend.antt =====
-- `NewStore` of services/scim-bridge/internal/state/store.go.
use mas_iam_operator.Prelude.{String, ◌<>◌, ◌||◌, [], ◌==◌, if◌then◌else◌}
use mas_iam_operator.Prelude.Dict.{Dict}
use mas_iam_operator.Errors.{message, Result, ok, err}
use mas_iam_operator.State.Entry.{Entry}
use mas_iam_operator.State.File.{Os, Json, FilesystemStore, new_filesystem_store}

pub record Options : Type 0 where
  pub file_path : String
  pub default_profile_id : String

module _ (os : Os) (json : Json) where
  -- The backend that was chosen, in its first state.
  pub data Backend : Type 0 where
    memory : Dict Entry → Backend
    filesystem : FilesystemStore os json → Backend

  open_file : Result (FilesystemStore os json) → Result Backend
  open_file (ok f) = ok (filesystem f)
  open_file (err e) = err e

  unfoldable pub new_store : String → Options → os.Disk → Result Backend
  unfolding open_file
  new_store backend opts disk =
      if (backend == "") || (backend == "memory")
      then ok (memory [])
      else if backend == "filesystem"
      then (if opts.file_path == ""
          then err (message "state file path required for filesystem backend")
          else open_file (new_filesystem_store os json opts.file_path opts.default_profile_id disk))
      else if backend == "postgresql"
      then err (message "postgresql backend not implemented yet")
      else err (message ("unknown backend " <> backend))
