-- ===== src/Cleanup/Kept.antt =====
-- What the cleanup leaves in the state: `run` in
-- services/scim-bridge/cmd/scim-bridge-cleanup/main.go.
use mas_iam_operator.Prelude.{
  String, ◌≡◌, refl, ◌∙◌, inl, inr, false, some, [], ◌∷◌, arith, ◌==◌, eq_iff, Bool-cases, has,
}
use mas_iam_operator.Errors.{Result-cases}
use mas_iam_operator.Prelude.Text.{CaseTable}
use mas_iam_operator.Prelude.Dict.{Dict, NodupKeys, keys, lookup-erase, has-keys}
use mas_iam_operator.Http.{Http}
use mas_iam_operator.State.Entry.{Entry, status_error}
use mas_iam_operator.Mas.Client.{Client, MasJson, delete_user}
use mas_iam_operator.Cleanup.{collect_error_entries, delete_all}
use mas_iam_operator.Prelude.Dict

has-keys-collect_error_entries :
    (k : String) (entries : Dict Entry)
    → has k (keys entries) ≡ false
    → has k (keys (collect_error_entries entries)) ≡ false
unfolding collect_error_entries has keys
has-keys-collect_error_entries k [] h = refl
has-keys-collect_error_entries k ((j, e) ∷ entries) h =
    ground (arith, has-keys-collect_error_entries k entries, h)

-- An entry of another status is not collected.
not_collected :
    (k : String) (e : Entry) (entries : Dict Entry)
    → NodupKeys entries
    → Dict.lookup k entries ≡ some e
    → (e.status == status_error) ≡ false
    → has k (keys (collect_error_entries entries)) ≡ false
unfolding collect_error_entries has keys Dict.lookup
not_collected k e [] u h n = refl
not_collected k e ((j, f) ∷ entries) (fresh, u) h n = elim (Bool-cases (j == k)) [
  | inl q ↦ ground (arith, q, h, n, eq_iff j k, has-keys-collect_error_entries k entries, fresh)
  | inr q ↦ ground (arith, q, h, n, not_collected k e entries u)
]

module _ ⦃c : CaseTable⦄ (http : Http) (json : MasJson) (client : Client) where
  lookup-delete_all :
      (errors entries : Dict Entry) (s : http.State) (k : String)
      → has k (keys errors) ≡ false
      → Dict.lookup k (delete_all http json client errors entries s).0 ≡ Dict.lookup k entries
  unfolding delete_all has keys
  lookup-delete_all [] entries s k h = refl
  lookup-delete_all ((j, e) ∷ errors) entries s k h =
      elim (Result-cases (delete_user http json client e.profile_id e.mas_id s).0) [
        | inl (a, q) ↦
            rw (q, delete_all)
              (lookup-delete_all errors (Dict.erase j entries) _ k (ground arith)
                ∙ rw (lookup-erase k j entries) (ground (arith, h)))
        | inr (x, q) ↦ rw (q, delete_all) (lookup-delete_all errors entries _ k (ground arith))
      ]

  -- The cleanup keeps every entry of a status other than `error` as it is, whatever MAS answers.
  pub lookup-delete_all_of_ok :
      (entries : Dict Entry) (s : http.State) (k : String) (e : Entry)
      → NodupKeys entries
      → Dict.lookup k entries ≡ some e
      → (e.status == "error") ≡ false
      → Dict.lookup k (delete_all http json client (collect_error_entries entries) entries s).0
        ≡ some e
  lookup-delete_all_of_ok entries s k e u h n =
      lookup-delete_all (collect_error_entries entries) entries s k
        (not_collected k e entries u h n)
      ∙ h
