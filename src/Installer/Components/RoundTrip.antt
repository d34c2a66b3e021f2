-- ===== src/Installer/Components/RoundTrip.antt =====
-- Component lists as text: `InstallComponentsString` and `ParseInstallComponents` of
-- tools/mas-iam-installer/internal/config/install.go.
use mas_iam_operator.Prelude.{
  String, ◌≡◌, refl, sym, Bool, true, false, List, [], ◌∷◌, if◌then◌else◌,
}
use mas_iam_operator.Errors.{ok}
use mas_iam_operator.Prelude.Fields.{fields, is_blank_or_comma}
use mas_iam_operator.Prelude.Text.{split, CaseTable, join, trim_space, to_lower}
use mas_iam_operator.Prelude.Dict.{Dict}
use mathlib.Core.Bool.{true≢false}
use mas_iam_operator.Installer.Components.Closure.{normalized_of}
use mas_iam_operator.Installer.Components.Chosen.{keycloak-chosen, ldap-chosen}
use mas_iam_operator.Installer.Components.{
  Quoting, normalize_install_components, parse_install_components, install_components_string,
}
use mas_iam_operator.Prelude.Dict

flagged : Bool → String → List String → List String
flagged b k ks = if b then k ∷ ks else ks

-- The list of the components whose flags are set.
listed : Bool → Bool → Bool → Bool → Bool → List String
unfolding flagged
listed l k c s m =
    flagged l "ldap"
      (flagged k "keycloak" (flagged c "scim" (flagged s "s3" (flagged m "smtp" []))))

module _ ⦃u : CaseTable⦄ ⦃q : Quoting⦄ where
  parse-join-listed :
      (l k c s m : Bool)
      → (c ≡ true → k ≡ true)
      → (k ≡ true → l ≡ true)
      → parse_install_components (join "," (listed l k c s m)) ≡ ok (listed l k c s m)
  unfolding listed parse_install_components trim_space join fields split is_blank_or_comma to_lower
      Dict.lookup Dict.insert
  parse-join-listed false false false false false p q = refl
  parse-join-listed false false false false true p q = refl
  parse-join-listed false false false true false p q = refl
  parse-join-listed false false false true true p q = refl
  parse-join-listed true false false false false p q = refl
  parse-join-listed true false false false true p q = refl
  parse-join-listed true false false true false p q = refl
  parse-join-listed true false false true true p q = refl
  parse-join-listed true true false false false p q = refl
  parse-join-listed true true false false true p q = refl
  parse-join-listed true true false true false p q = refl
  parse-join-listed true true false true true p q = refl
  parse-join-listed true true true false false p q = refl
  parse-join-listed true true true false true p q = refl
  parse-join-listed true true true true false p q = refl
  parse-join-listed true true true true true p q = refl
  parse-join-listed l false true s m p q = elim (true≢false (sym (p refl))) [ ]
  parse-join-listed false true c s m p q = elim (true≢false (sym (q refl))) [ ]

  -- The text written for a list that is accepted is read back as its normal form.
  pub parse_install_components-install_components_string :
      (cs ns : List String)
      → normalize_install_components cs ≡ ok ns
      → parse_install_components (install_components_string cs) ≡ ok ns
  unfolding install_components_string listed flagged
  parse_install_components-install_components_string cs ns e =
      let (m, pq) = normalized_of cs ns e in
      rw (install_components_string, e, pq.1)
        (parse-join-listed _ _ _ _ _ (keycloak-chosen m) (ldap-chosen m))
