-- ===== src/Tests/Disk.antt =====
-- The theorems on the state file, on a disk that holds texts.
use mas_iam_operator.Prelude.{
  String, ◌≡◌, refl, sym, ap, Bool, true, false, ◌&&◌, none, some, [], ◌∷◌, arith, ◌==◌, eq_iff,
  if◌then◌else◌,
}
use mas_iam_operator.Errors.{Error, message, is_unauthorized, Result, ok, err, ok_inj}
use mas_iam_operator.Prelude.Dict.{Dict, map_values}
use mas_iam_operator.State.Entry.{Snapshot, Entry, normalize_entry}
use mas_iam_operator.State.Api.{IsLawful}
use mas_iam_operator.State.File.{
  Os, Json, Read, not_exist, contents, FilesystemStore, filesystem_store, new_filesystem_store,
  save, write_to_file,
}
use mas_iam_operator.State.File.Durable.{IsDisk, write_to_file-atomic}
use mas_iam_operator.State.File.Reload.{IsCodec, IsNormal, save-reload, filesystem_store-IsLawful}
use mas_iam_operator.Tests.Fixtures.{entry, snapshot}
use mas_iam_operator.Prelude.Dict

-- The state file and one temporary file; nothing fails.
pub record Files : Type 0 where
  pub state : Read
  pub temporary : Read

abbrev disk : Os
disk = record {
  Disk = Files;
  read_file = λ k path. if path == "s" then k.state else k.temporary;
  dir = λ path. ".";
  mkdir_all = λ k path. (none, k);
  create_temp = λ k path. (ok "t", record k { temporary = contents "" });
  write = λ k path text. (
    none,
    if path == "s"
        then record k { state = contents text }
        else record k { temporary = contents text },
  );
  close = λ k path. (none, k);
  rename = λ k from to.
      (none, if from == "s" then k else if to == "s" then record k { state = k.temporary } else k);
  remove = λ k path. if path == "s" then k else record k { temporary = not_exist };
}

-- One entry is all that it can encode.
abbrev stored : Entry
stored = entry "m1" "ada"

same_texts : Snapshot → Bool
same_texts s =
    (s.user_name == "ada")
    && (s.given_name == "Augusta")
    && (s.family_name == "Byron")
    && (s.email == "a@x")
    && (s.profile_id == "acme")

is_snapshot : Snapshot → Bool
unfolding same_texts
is_snapshot s = same_texts s && s.has_email && s.active && s.has_active

is_stored : Entry → Bool
unfolding is_snapshot
is_stored e =
    (e.mas_id == "m1")
    && (e.profile_id == "acme")
    && (e.status == "ok")
    && (e.last_error == "")
    && (e.username == "ada")
    && is_snapshot e.last_applied

snapshot_of-texts : (s : Snapshot) → is_snapshot s ≡ true → s ≡ snapshot
unfolding is_snapshot
snapshot_of-texts s h = ground (
  arith,
  h,
  eq_iff s.user_name "ada",
  eq_iff s.given_name "Augusta",
  eq_iff s.family_name "Byron",
  eq_iff s.email "a@x",
  eq_iff s.profile_id "acme",
)

is_stored-eq : (e : Entry) → is_stored e ≡ true → e ≡ stored
unfolding is_stored
is_stored-eq e h = ground (
  arith,
  h,
  eq_iff e.mas_id "m1",
  eq_iff e.profile_id "acme",
  eq_iff e.status "ok",
  eq_iff e.last_error "",
  eq_iff e.username "ada",
  snapshot_of-texts e.last_applied,
)

abbrev saved : Dict Entry
saved = ("k1", stored) ∷ []

encode : Dict Entry → Result String
unfolding is_stored
encode [] = err (message "empty")
encode ((k, e) ∷ []) = if (k == "k1") && is_stored e then ok "{}" else err (message "another entry")
encode (x ∷ y ∷ m) = err (message "two entries")

abbrev codec : Json
codec = record {
  marshal_indent = encode;
  unmarshal_entries = λ text. (saved, none);
  unmarshal_legacy = λ text. ok [];
}

encode-saved : (m : Dict Entry) (text : String) → encode m ≡ ok text → m ≡ saved
unfolding encode
encode-saved [] text h = cc
encode-saved ((k, e) ∷ []) text h = ground (arith, h, eq_iff k "k1", is_stored-eq e)
encode-saved (x ∷ y ∷ m) text h = cc

codec-IsCodec : IsCodec codec
codec-IsCodec m text h = (refl, λ k. ap (λ t. Dict.lookup k t) (sym (encode-saved m text h)))

disk-IsDisk : IsDisk disk "s"
disk-IsDisk = record {
  mkdir_all-keeps = λ k p. refl;
  create_temp-keeps = λ k p. refl;
  create_temp-fresh = λ k p t e. rw (← ok_inj e) refl;
  write-keeps = λ k t text n. ground (arith, n);
  write-reads = λ k p t text e f. rw (← ok_inj e) refl;
  close-keeps = λ k t p. refl;
  rename-fails = λ k t e h. ground (arith, h);
  rename-replaces = λ k t h. ground arith;
  remove-keeps = λ k t n. ground (arith, n);
}

abbrev nothing_written : Files
nothing_written = record { state = not_exist; temporary = not_exist }

abbrev no_entries : FilesystemStore disk codec
no_entries = record { items = []; disk = nothing_written }

save-reload_example :
    let f = (save disk codec "s" "acme" no_entries "k1" stored).1 in
    (g : FilesystemStore disk codec) × (new_filesystem_store disk codec "s" "acme" f.disk ≡ ok g)
    × ((j : String) → Dict.lookup j g.items ≡ Dict.lookup j f.items)
    × IsNormal "acme" f.items
unfolding Dict.lookup save write_to_file encode map_values Dict.insert normalize_entry
save-reload_example =
    save-reload disk codec "s" "acme" disk-IsDisk codec-IsCodec no_entries "k1" stored (λ k. tt)
      refl

write_to_file-atomic_example :
    disk.read_file (write_to_file disk codec nothing_written "s" saved "acme").1 "s" ≡ contents "{}"
unfolding write_to_file encode map_values normalize_entry
write_to_file-atomic_example =
    write_to_file-atomic disk codec "s" disk-IsDisk nothing_written saved "acme"

authorized :
    (k : Files) (entries : Dict Entry) (x : Error)
    → (write_to_file disk codec k "s" entries "acme").0 ≡ some x
    → is_unauthorized x ≡ false
unfolding write_to_file encode is_unauthorized map_values
authorized k [] x h = ground (arith, h)
authorized k ((j, e) ∷ []) x h = ground (arith, h)
authorized k (a ∷ b ∷ entries) x h = ground (arith, h)

filesystem_store-IsLawful_example : IsLawful (filesystem_store disk codec "s" "acme") "acme"
filesystem_store-IsLawful_example = filesystem_store-IsLawful disk codec "s" "acme" authorized
