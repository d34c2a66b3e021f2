-- ===== src/State/File.antt =====
-- `filesystemStore`, `LoadFromFile` and `WriteToFile` of
-- services/scim-bridge/internal/state/store.go. The operating system and the JSON encoding are
-- parameters.
pub mod Durable
pub mod Reload
use mas_iam_operator.Prelude.{String, Option, none, some, [], ◌∷◌}
use mas_iam_operator.Prelude.Dict.{Dict, map_values}
use mas_iam_operator.Errors.{Error, Result, ok, err}
use mas_iam_operator.State.Entry.{Entry, no_snapshot, normalize_entry}
use mas_iam_operator.State.Api.{Store}
use mas_iam_operator.State.Memory.{copy_entries}
use mas_iam_operator.Prelude.Dict

-- What `os.ReadFile` gives; `not_exist` is `os.ErrNotExist`.
pub data Read : Type 0 where
  not_exist : Read
  unreadable : Error → Read
  contents : String → Read

pub record Os : Type 1 where
  pub Disk : Type 0
  pub read_file : Disk → String → Read
  -- `filepath.Dir`
  pub dir : String → String
  pub mkdir_all : Disk → String → Option Error × Disk
  pub create_temp : Disk → String → Result String × Disk
  pub write : Disk → String → String → Option Error × Disk
  pub close : Disk → String → Option Error × Disk
  pub rename : Disk → String → String → Option Error × Disk
  pub remove : Disk → String → Disk

-- `json.Unmarshal` fills the map even where it returns an error.
pub record Json : Type 0 where
  pub marshal_indent : Dict Entry → Result String
  pub unmarshal_entries : String → Dict Entry × Option Error
  pub unmarshal_legacy : String → Result (Dict String)

abbrev pub legacy_entry : String → Entry
legacy_entry mas_id = record {
  mas_id = mas_id;
  profile_id = "";
  status = "";
  last_error = "";
  username = "";
  last_applied = no_snapshot;
}

-- The loop that assigns an entry for each pair of the legacy map.
unfoldable pub add_legacy : String → Dict Entry → Dict String → Dict Entry
add_legacy d entries [] = entries
add_legacy d entries ((id, mas_id) ∷ legacy) =
    add_legacy d (Dict.insert id (normalize_entry (legacy_entry mas_id) d) entries) legacy

module _ (os : Os) (json : Json) where
  decode : String → String → Result (Dict Entry)
  decode d text =
      let (entries, failed) = json.unmarshal_entries text in
      elim failed [
        | none ↦ ok (map_values (λ entry. normalize_entry entry d) entries)
        | some e ↦ elim (json.unmarshal_legacy text) [
          | err _ ↦ err e
          | ok legacy ↦ ok (add_legacy d entries legacy)
        ]
      ]

  unfoldable pub load_from_file : os.Disk → String → String → Result (Dict Entry)
  unfolding decode
  load_from_file disk path d = elim (os.read_file disk path) [
    | not_exist ↦ ok []
    | unreadable e ↦ err e
    | contents text ↦ decode d text
  ]

  -- From `os.Rename` on; the deferred call removes `tmp` on every path.
  rename_temp : String → String → os.Disk → Option Error × os.Disk
  rename_temp tmp path disk =
      let (renamed, disk') = os.rename disk tmp path in (renamed, os.remove disk' tmp)

  close_temp : String → String → os.Disk → Option Error × os.Disk
  close_temp tmp path disk =
      let (closed, disk') = os.close disk tmp in
      elim closed [ some e ↦ (some e, os.remove disk' tmp) | none ↦ rename_temp tmp path disk' ]

  fill_temp : String → String → String → os.Disk → Option Error × os.Disk
  fill_temp tmp path text disk =
      let (written, disk') = os.write disk tmp text in
      elim written [
        | some e ↦ (some e, os.remove (os.close disk' tmp).1 tmp)
        | none ↦ close_temp tmp path disk'
      ]

  create_and_fill : String → String → os.Disk → Option Error × os.Disk
  create_and_fill path text disk =
      let (created, disk') = os.create_temp disk (os.dir path) in
      elim created [ err e ↦ (some e, disk') | ok tmp ↦ fill_temp tmp path text disk' ]

  encode_and_write : String → Dict Entry → os.Disk → Option Error × os.Disk
  encode_and_write path normalized disk = elim (json.marshal_indent normalized) [
    | err e ↦ (some e, disk)
    | ok text ↦ create_and_fill path text disk
  ]

  unfoldable pub write_to_file : os.Disk → String → Dict Entry → String → Option Error × os.Disk
  unfolding encode_and_write create_and_fill fill_temp close_temp rename_temp
  write_to_file disk path entries d =
      let (made, disk') = os.mkdir_all disk (os.dir path) in
      elim made [
        | some e ↦ (some e, disk')
        | none ↦ encode_and_write path (map_values (λ entry. normalize_entry entry d) entries) disk'
      ]

  pub record FilesystemStore : Type 0 where
    pub items : Dict Entry
    pub disk : os.Disk

  -- `path` and `defaultProfileID` never change.
  module _ (path default_profile_id : String) where
    unfoldable pub new_filesystem_store : os.Disk → Result FilesystemStore
    new_filesystem_store disk = elim (load_from_file disk path default_profile_id) [
      | err e ↦ err e
      | ok entries ↦ ok (record { items = entries; disk = disk })
    ]

    persist : Dict Entry → os.Disk → Option Error × FilesystemStore
    persist items disk =
        let (saved, disk') = write_to_file disk path items default_profile_id in
        (saved, record { items = items; disk = disk' })

    -- The map is updated first, whether or not the file can be written.
    unfoldable pub save : FilesystemStore → String → Entry → Option Error × FilesystemStore
    unfolding persist
    save f keycloak_id entry =
        persist (Dict.insert keycloak_id (normalize_entry entry default_profile_id) f.items) f.disk

    abbrev pub filesystem_store : Store
    filesystem_store = record {
      State = FilesystemStore;
      lookup = λ f keycloak_id. Dict.lookup keycloak_id f.items;
      save = save;
      list = λ f. ok (copy_entries f.items);
    }
