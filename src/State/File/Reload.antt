-- ===== src/State/File/Reload.antt =====
-- What a restart finds: `filesystemStore` and `LoadFromFile` of
-- services/scim-bridge/internal/state/store.go.
use mas_iam_operator.Prelude.{
  String, ◌≡◌, refl, ap, ◌∙◌, inl, inr, false, Option, none, some, arith, ◌==◌, eq_iff, Bool-cases,
}
use mas_iam_operator.Errors.{Error, is_unauthorized, ok, Result-cases}
use mas_iam_operator.Prelude.Dict.{Dict, map_values, lookup-map_values, lookup-insert, NodupKeys}
use mas_iam_operator.State.Entry.{Entry, normalize_entry, normalize_entry_idem}
use mas_iam_operator.State.Api.{IsLawful}
use mas_iam_operator.State.Memory.{copy_entries, lookup-copy_entries, copy_entries-NodupKeys}
use mas_iam_operator.State.File.{
  Os, contents, Json, write_to_file, FilesystemStore, filesystem_store, new_filesystem_store,
  load_from_file, save, decode, persist, encode_and_write,
}
use mas_iam_operator.State.File.Durable.{IsDisk, write_to_file-atomic}
use mathlib.Core.Option as Option
use mas_iam_operator.Prelude.Dict

-- What is read back of an encoding are the entries that were encoded, as a map.
abbrev pub IsCodec : Json → Type 0
IsCodec json =
    (m : Dict Entry) (text : String)
    → json.marshal_indent m ≡ ok text
    → ((json.unmarshal_entries text).1 ≡ none)
      × ((k : String) → Dict.lookup k (json.unmarshal_entries text).0 ≡ Dict.lookup k m)

abbrev pub IsNormalEntry : String → Option Entry → Type 0
IsNormalEntry d none = Unit
IsNormalEntry d (some e) = normalize_entry e d ≡ e

-- Every entry is normalized.
abbrev pub IsNormal : String → Dict Entry → Type 0
IsNormal d items = (k : String) → IsNormalEntry d (Dict.lookup k items)

insert-IsNormal :
    (d k : String) (e : Entry) (items : Dict Entry)
    → IsNormal d items
    → IsNormal d (Dict.insert k (normalize_entry e d) items)
insert-IsNormal d k e items h j =
    rw (lookup-insert j k (normalize_entry e d) items)
      (elim (Bool-cases (k == j)) [ inl p ↦ rw p (normalize_entry_idem e d) | inr p ↦ rw p (h j) ])

normalized_again :
    (d : String) (o : Option Entry)
    → IsNormalEntry d o
    → Option.map (λ e. normalize_entry e d) (Option.map (λ e. normalize_entry e d) o) ≡ o
normalized_again d none h = refl
normalized_again d (some e) h = ap some (ap (λ x. normalize_entry x d) h ∙ h)

module _ (os : Os) (json : Json) (path d : String) where
  written-encoded :
      (k : os.Disk) (entries : Dict Entry)
      → (write_to_file os json k path entries d).0 ≡ none
      → (text : String) × (json.marshal_indent (map_values (λ e. normalize_entry e d) entries)
          ≡ ok text)
  unfolding write_to_file encode_and_write
  written-encoded k entries h =
      elim (Result-cases (json.marshal_indent (map_values (λ e. normalize_entry e d) entries))) [
        | inl (text, q) ↦ (text, q)
        | inr (x, q) ↦ absurd (ground (arith, q, h))
      ]

  load-contents :
      (k : os.Disk) (text : String)
      → os.read_file k path ≡ contents text
      → (json.unmarshal_entries text).1 ≡ none
      → load_from_file os json k path d
        ≡ ok (map_values (λ e. normalize_entry e d) (json.unmarshal_entries text).0)
  unfolding load_from_file decode
  load-contents k text h n = rw (h, load_from_file) (rw (n, decode) refl)

  -- If a save succeeds on a disk whose calls behave as documented, and what is encoded can be read
  -- back, then a store that is opened afterwards finds every entry as the running store does,
  -- provided that the entries were normalized before the save; after it they still are.
  pub save-reload :
      IsDisk os path
      → IsCodec json
      → (f : FilesystemStore os json) (k : String) (e : Entry) → IsNormal d f.items
      → (save os json path d f k e).0 ≡ none
      → let f' = (save os json path d f k e).1 in
        (g : FilesystemStore os json) × (new_filesystem_store os json path d f'.disk ≡ ok g)
        × ((j : String) → Dict.lookup j g.items ≡ Dict.lookup j f'.items)
        × IsNormal d f'.items
  unfolding save persist new_filesystem_store
  save-reload L codec f k e normal h =
      let items = Dict.insert k (normalize_entry e d) f.items in
      let kept = insert-IsNormal d k e f.items normal in
      let (text, q) = written-encoded f.disk items h in
      let (decoded, same) = codec (map_values (λ e. normalize_entry e d) items) text q in
      let k' = (write_to_file os json f.disk path items d).1 in
      let now : os.read_file k' path ≡ contents text =
        rw (q, h) at (write_to_file-atomic os json path L f.disk items d) in
      (
        record {
          items = map_values (λ e. normalize_entry e d) (json.unmarshal_entries text).0;
          disk = k';
        },
        rw (load-contents k' text now decoded, new_filesystem_store) refl,
        (λ j.
            lookup-map_values (λ e. normalize_entry e d) j (json.unmarshal_entries text).0
            ∙ rw (same j, lookup-map_values (λ e. normalize_entry e d) j items)
                (normalized_again d (Dict.lookup j items) (kept j))),
        kept,
      )

  -- If no error of the disk or of the encoder is `ErrMASUnauthorized`, the filesystem store keeps
  -- the contract of a store.
  pub filesystem_store-IsLawful :
      ((k : os.Disk) (entries : Dict Entry) (x : Error)
        → (write_to_file os json k path entries d).0 ≡ some x
        → is_unauthorized x ≡ false)
      → IsLawful (filesystem_store os json path d) d
  unfolding save persist
  filesystem_store-IsLawful authorized = record {
    lookup-save = λ f k j e.
        ground (arith, lookup-insert j k (normalize_entry e d) f.items, eq_iff j k, eq_iff k j);
    save-authorized =
        λ f k e x h. authorized f.disk (Dict.insert k (normalize_entry e d) f.items) x h;
    lookup-list = λ f m h k.
        let q : copy_entries f.items ≡ m = cc in rw (← q) (lookup-copy_entries k f.items);
    list-NodupKeys =
        λ f m h. let q : copy_entries f.items ≡ m = cc in rw (← q) (copy_entries-NodupKeys f.items);
  }
