-- ===== src/State/File/Durable.antt =====
-- What survives a crash: `WriteToFile` and `filesystemStore` of
-- services/scim-bridge/internal/state/store.go on a disk whose calls behave as documented.
use mas_iam_operator.Prelude.{
  String, ◌≡◌, ◌∙◌, inl, inr, false, Option, none, some, ◌==◌, Option-cases,
}
use mas_iam_operator.Errors.{Error, Result, ok, err, Result-cases}
use mas_iam_operator.Prelude.Dict.{Dict, map_values}
use mas_iam_operator.State.Entry.{Entry, normalize_entry}
use mas_iam_operator.State.File.{
  Os, Read, contents, unreadable, Json, write_to_file, close_temp, create_and_fill,
  encode_and_write, fill_temp, rename_temp,
}

-- What `os` documents of the calls, for one state file: only a rename that succeeds changes it, and
-- a new temporary file has another name.
pub record IsDisk (os : Os) (path : String) : Type 0 where
  pub mkdir_all-keeps :
      (k : os.Disk) (p : String) → os.read_file (os.mkdir_all k p).1 path ≡ os.read_file k path
  pub create_temp-keeps :
      (k : os.Disk) (p : String) → os.read_file (os.create_temp k p).1 path ≡ os.read_file k path
  pub create_temp-fresh :
      (k : os.Disk) (p t : String) → (os.create_temp k p).0 ≡ ok t → (t == path) ≡ false
  pub write-keeps :
      (k : os.Disk) (t text : String)
      → (t == path) ≡ false
      → os.read_file (os.write k t text).1 path ≡ os.read_file k path
  pub write-reads :
      (k : os.Disk) (p t text : String)
      → (os.create_temp k p).0 ≡ ok t
      → (os.write (os.create_temp k p).1 t text).0 ≡ none
      → os.read_file (os.write (os.create_temp k p).1 t text).1 t ≡ contents text
  pub close-keeps :
      (k : os.Disk) (t p : String) → os.read_file (os.close k t).1 p ≡ os.read_file k p
  pub rename-fails :
      (k : os.Disk) (t : String) (e : Error)
      → (os.rename k t path).0 ≡ some e
      → os.read_file (os.rename k t path).1 path ≡ os.read_file k path
  pub rename-replaces :
      (k : os.Disk) (t : String)
      → (os.rename k t path).0 ≡ none
      → os.read_file (os.rename k t path).1 path ≡ os.read_file k t
  pub remove-keeps :
      (k : os.Disk) (t : String)
      → (t == path) ≡ false
      → os.read_file (os.remove k t) path ≡ os.read_file k path

-- The state file after a write, from the error, the encoding and the file before. A write that
-- succeeds without an encoding would make it unreadable: there is none.
abbrev pub file_after : Option Error → Result String → Read → Read
file_after none (ok text) before = contents text
file_after none (err e) before = unreadable e
file_after (some e) encoded before = before

module _ (os : Os) (json : Json) (path : String) (L : IsDisk os path) where
  rename_temp-file_after :
      (t text : String) (k : os.Disk)
      → (t == path) ≡ false
      → os.read_file k t ≡ contents text
      → os.read_file (rename_temp os json t path k).1 path
        ≡ file_after (rename_temp os json t path k).0 (ok text) (os.read_file k path)
  unfolding rename_temp
  rename_temp-file_after t text k n h = elim (Option-cases (os.rename k t path).0) [
    | inl e ↦
        rw (L.remove-keeps (os.rename k t path).1 t n)
          (rw (e, rename_temp) (L.rename-replaces k t e ∙ h))
    | inr (x, e) ↦
        rw (L.remove-keeps (os.rename k t path).1 t n)
          (rw (e, rename_temp) (L.rename-fails k t x e))
  ]

  close_temp-file_after :
      (t text : String) (k : os.Disk)
      → (t == path) ≡ false
      → os.read_file k t ≡ contents text
      → os.read_file (close_temp os json t path k).1 path
        ≡ file_after (close_temp os json t path k).0 (ok text) (os.read_file k path)
  unfolding close_temp
  close_temp-file_after t text k n h =
      let k' = (os.close k t).1 in
      let kept : os.read_file k' path ≡ os.read_file k path = L.close-keeps k t path in
      elim (Option-cases (os.close k t).0) [
        | inl e ↦
            rw (e, close_temp)
              (rw (← kept) (rename_temp-file_after t text k' n (L.close-keeps k t t ∙ h)))
        | inr (x, e) ↦ rw (e, close_temp) (L.remove-keeps k' t n ∙ kept)
      ]

  fill_temp-file_after :
      (t text : String) (k : os.Disk) (p : String)
      → (os.create_temp k p).0 ≡ ok t
      → let k' = (os.create_temp k p).1 in
        os.read_file (fill_temp os json t path text k').1 path
        ≡ file_after (fill_temp os json t path text k').0 (ok text) (os.read_file k' path)
  unfolding fill_temp
  fill_temp-file_after t text k p q =
      let k' = (os.create_temp k p).1 in
      let n = L.create_temp-fresh k p t q in
      let k'' = (os.write k' t text).1 in
      let kept : os.read_file k'' path ≡ os.read_file k' path = L.write-keeps k' t text n in
      elim (Option-cases (os.write k' t text).0) [
        | inl e ↦
            rw (e, fill_temp)
              (rw (← kept) (close_temp-file_after t text k'' n (L.write-reads k p t text q e)))
        | inr (x, e) ↦
            rw (e, fill_temp)
              (L.remove-keeps (os.close k'' t).1 t n ∙ L.close-keeps k'' t path ∙ kept)
      ]

  create_and_fill-file_after :
      (text : String) (k : os.Disk)
      → os.read_file (create_and_fill os json path text k).1 path
        ≡ file_after (create_and_fill os json path text k).0 (ok text) (os.read_file k path)
  unfolding create_and_fill
  create_and_fill-file_after text k =
      let made = os.create_temp k (os.dir path) in
      elim (Result-cases made.0) [
        | inl (t, e) ↦
            rw (e, create_and_fill)
              (rw (← L.create_temp-keeps k (os.dir path))
                (fill_temp-file_after t text k (os.dir path) e))
        | inr (x, e) ↦ rw (e, create_and_fill) (L.create_temp-keeps k (os.dir path))
      ]

  -- `WriteToFile` leaves the state file as it was if it returns an error, and otherwise leaves the
  -- whole encoding of the normalized entries in it.
  pub write_to_file-atomic :
      (k : os.Disk) (entries : Dict Entry) (d : String)
      → let r = write_to_file os json k path entries d in
        os.read_file r.1 path
        ≡ file_after r.0
            (json.marshal_indent (map_values (λ e. normalize_entry e d) entries))
            (os.read_file k path)
  unfolding write_to_file encode_and_write
  write_to_file-atomic k entries d =
      let made = os.mkdir_all k (os.dir path) in
      let kept : os.read_file made.1 path ≡ os.read_file k path =
        L.mkdir_all-keeps k (os.dir path) in
      let encoded = json.marshal_indent (map_values (λ e. normalize_entry e d) entries) in
      elim (Option-cases made.0) [
        | inr (x, e) ↦ rw (e, write_to_file) kept
        | inl e ↦
            rw (e, write_to_file)
              (elim (Result-cases encoded) [
                | inl (text, q) ↦
                    rw (q, encode_and_write) (rw (← kept) (create_and_fill-file_after text made.1))
                | inr (x, q) ↦ rw (q, encode_and_write) kept
              ])
      ]
