-- ===== src/State/Api.antt =====
-- The interface `Store` of services/scim-bridge/internal/state/store.go, and its contract.
-- `Lookup` returns a nil error in both implementations, and its only caller drops the error.
use mas_iam_operator.Prelude.{String, ◌≡◌, false, Option, some, ◌==◌, if◌then◌else◌}
use mas_iam_operator.Prelude.Dict.{Dict, NodupKeys}
use mas_iam_operator.Errors.{Error, Result, ok, is_unauthorized}
use mas_iam_operator.State.Entry.{Entry, normalize_entry}
use mas_iam_operator.Prelude.Dict

pub record Store : Type 1 where
  pub State : Type 0
  pub lookup : State → String → Option Entry
  pub save : State → String → Entry → Option Error × State
  pub list : State → Result (Dict Entry)

-- What the bridge relies on. A failing `Save` has still recorded the entry in memory, so the law
-- of `lookup` does not ask for its success.
pub record IsLawful (S : Store) (default_profile_id : String) : Type 0 where
  pub lookup-save :
      (s : S.State) (k j : String) (e : Entry)
      → S.lookup (S.save s k e).1 j
        ≡ (if k == j then some (normalize_entry e default_profile_id) else S.lookup s j)
  pub save-authorized :
      (s : S.State) (k : String) (e : Entry) (x : Error)
      → (S.save s k e).0 ≡ some x
      → is_unauthorized x ≡ false
  pub lookup-list :
      (s : S.State) (m : Dict Entry)
      → S.list s ≡ ok m
      → (k : String) → Dict.lookup k m ≡ S.lookup s k
  pub list-NodupKeys : (s : S.State) (m : Dict Entry) → S.list s ≡ ok m → NodupKeys m
