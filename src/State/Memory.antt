-- ===== src/State/Memory.antt =====
-- `memoryStore` of services/scim-bridge/internal/state/store.go. Its `items` are the state, its
-- constant `defaultProfileID` a parameter. The mutex makes each method one step.
use mas_iam_operator.Prelude.{
  String, ◌≡◌, refl, Option, none, some, [], ◌∷◌, arith, ◌==◌, if◌then◌else◌, eq_iff,
}
use mas_iam_operator.Prelude.Dict.{Dict, NodupKeys, insert-NodupKeys, lookup-insert}
use mas_iam_operator.Errors.{Error, ok}
use mas_iam_operator.State.Entry.{Entry, normalize_entry}
use mas_iam_operator.State.Api.{Store, IsLawful}
use mas_iam_operator.Prelude.Dict

-- An assignment to a new map for each entry. The order of Go's loop is unspecified.
unfoldable pub copy_entries : Dict Entry → Dict Entry
copy_entries [] = []
copy_entries ((id, entry) ∷ items) = Dict.insert id entry (copy_entries items)

pub lookup-copy_entries :
    (k : String) (items : Dict Entry) → Dict.lookup k (copy_entries items) ≡ Dict.lookup k items
unfolding copy_entries Dict.lookup
lookup-copy_entries k [] = refl
lookup-copy_entries k ((id, entry) ∷ items) = ground (
  arith,
  lookup-insert k id entry (copy_entries items),
  lookup-copy_entries k items,
  eq_iff id k,
  eq_iff k id,
)

pub copy_entries-NodupKeys : (items : Dict Entry) → NodupKeys (copy_entries items)
unfolding copy_entries
copy_entries-NodupKeys [] = tt
copy_entries-NodupKeys ((id, entry) ∷ items) =
    insert-NodupKeys id entry (copy_entries items) (copy_entries-NodupKeys items)

module _ (default_profile_id : String) where
  unfoldable pub save : Dict Entry → String → Entry → Option Error × Dict Entry
  save items keycloak_id entry =
      (none, Dict.insert keycloak_id (normalize_entry entry default_profile_id) items)

  abbrev pub memory_store : Store
  memory_store = record {
    State = Dict Entry;
    lookup = λ items keycloak_id. Dict.lookup keycloak_id items;
    save = save;
    list = λ items. ok (copy_entries items);
  }

  lookup-save :
      (items : Dict Entry) (k j : String) (e : Entry)
      → Dict.lookup j (save items k e).1
        ≡ (if k == j then some (normalize_entry e default_profile_id) else Dict.lookup j items)
  unfolding save
  lookup-save items k j e = ground (
    arith,
    lookup-insert j k (normalize_entry e default_profile_id) items,
    eq_iff j k,
    eq_iff k j,
  )

  list-NodupKeys : (items m : Dict Entry) → ok (copy_entries items) ≡ ok m → NodupKeys m
  list-NodupKeys items m h =
      let e : copy_entries items ≡ m = cc in rw (← e) (copy_entries-NodupKeys items)

  lookup-list :
      (items m : Dict Entry)
      → ok (copy_entries items) ≡ ok m
      → (k : String) → Dict.lookup k m ≡ Dict.lookup k items
  lookup-list items m h k =
      let e : copy_entries items ≡ m = cc in rw (← e) (lookup-copy_entries k items)

  -- The store in memory meets the contract.
  pub memory_store-IsLawful : IsLawful memory_store default_profile_id
  unfolding save
  memory_store-IsLawful = record {
    lookup-save = λ s k j e. lookup-save s k j e;
    save-authorized = λ s k e x h. cc;
    lookup-list = lookup-list;
    list-NodupKeys = list-NodupKeys;
  }
