-- ===== src/Installer/Components/Chosen.antt =====
-- The map `selected` of `NormalizeInstallComponents` of
-- tools/mas-iam-installer/internal/config/install.go.
use mas_iam_operator.Prelude.{
  String, ◌≡◌, refl, sym, ap, ◌∙◌, inl, inr, Bool, true, false, ◌&&◌, ◌||◌, List, [], ◌∷◌, arith,
  ◌==◌, eq_iff, Bool-cases, keep, has,
}
use mas_iam_operator.Errors.{Error, ok, ok_inj}
use mas_iam_operator.Prelude.Text.{CaseTable}
use mas_iam_operator.Prelude.Dict.{Dict}
use mas_iam_operator.Installer.Components.{
  component_order, chosen, set_all, when_chosen, add_dependencies, clean, select,
}
use mas_iam_operator.Prelude.Dict

chosen-insert :
    (j k : String) (m : Dict Bool) → chosen j (Dict.insert k true m) ≡ (k == j || chosen j m)
unfolding chosen
chosen-insert j k m = ground (arith, Dict.lookup-insert j k true m)

pub chosen-nil : (k : String) → chosen k [] ≡ false
unfolding chosen Dict.lookup
chosen-nil k = refl

pub has-keep :
    (k : String) (p : String → Bool) (xs : List String) → has k (keep p xs) ≡ (p k && has k xs)
unfolding has
has-keep k p [] = ground arith
has-keep k p (x ∷ xs) = ground (arith, has-keep k p xs, eq_iff x k, ap p)

chosen-set_all :
    (k : String) (ks : List String) (m : Dict Bool)
    → chosen k (set_all ks m) ≡ (has k ks || chosen k m)
unfolding set_all has
chosen-set_all k [] m = refl
chosen-set_all k (j ∷ ks) m =
    ground (arith, chosen-set_all k ks (Dict.insert j true m), chosen-insert k j m)

chosen-when_chosen :
    (k s : String) (ks : List String) (m : Dict Bool)
    → chosen k (when_chosen s ks m) ≡ ((chosen s m && has k ks) || chosen k m)
unfolding when_chosen
chosen-when_chosen k s ks m = ground (arith, chosen-set_all k ks m)

pub chosen-add_dependencies :
    (k : String) (m : Dict Bool)
    → chosen k (add_dependencies m) ≡ (
        ((chosen "scim" m || chosen "keycloak" m) && "ldap" == k)
        || ((chosen "scim" m && "keycloak" == k) || chosen k m))
unfolding add_dependencies has
chosen-add_dependencies k m =
    rw
      (
        chosen-when_chosen k "keycloak" ("ldap" ∷ []) _,
        chosen-when_chosen k "scim" ("keycloak" ∷ "ldap" ∷ []) m,
        chosen-when_chosen "keycloak" "scim" ("keycloak" ∷ "ldap" ∷ []) m,
      )
      (ground arith)

pub keycloak-chosen :
    (m : Dict Bool)
    → chosen "scim" (add_dependencies m) ≡ true
    → chosen "keycloak" (add_dependencies m) ≡ true
keycloak-chosen m c =
    ground (arith, c, chosen-add_dependencies "scim" m, chosen-add_dependencies "keycloak" m)

pub ldap-chosen :
    (m : Dict Bool)
    → chosen "keycloak" (add_dependencies m) ≡ true
    → chosen "ldap" (add_dependencies m) ≡ true
ldap-chosen m c =
    ground (arith, c, chosen-add_dependencies "keycloak" m, chosen-add_dependencies "ldap" m)

pub blank_unknown : (k : String) → has k component_order ≡ true → (k == "") ≡ false
unfolding has
blank_unknown k h = elim (Bool-cases (k == "")) [
  | inr e ↦ e
  | inl e ↦
      let absurd : true ≡ false = sym h ∙ ap (λ t. has t component_order) ((eq_iff k "").0 e) in
      ground arith
]

module _ ⦃u : CaseTable⦄ where
  unfoldable pub cleaned : List String → List String
  cleaned [] = []
  cleaned (value ∷ values) = clean value ∷ cleaned values

  pub select-chosen :
      (names : List String) (unknown : String → Error) (k : String)
      → (k == "") ≡ false
      → (values : List String) (m m' : Dict Bool) → select names unknown values m ≡ ok m'
      → chosen k m' ≡ (has k (cleaned values) || chosen k m)
  unfolding select cleaned has
  select-chosen names unknown k b [] m m' e = ap (chosen k) (sym (ok_inj e))
  select-chosen names unknown k b (value ∷ values) m m' e = ground (
    arith,
    select-chosen names unknown k b values m m',
    select-chosen names unknown k b values (Dict.insert (clean value) true m) m',
    chosen-insert k (clean value) m,
    eq_iff (clean value) "",
    eq_iff (clean value) k,
  )
