-- ===== src/Installer/Components/Closure.antt =====
-- Which components `NormalizeInstallComponents` of
-- tools/mas-iam-installer/internal/config/install.go returns.
use mas_iam_operator.Prelude.{
  String, ◌≡◌, refl, sym, ap, ◌∙◌, ◌↔◌, inl, inr, Bool, true, ◌&&◌, ◌||◌, List, [], arith, ◌==◌,
  eq_iff, Bool-cases, keep, has,
}
use mas_iam_operator.Errors.{ok, ok_inj, Result-cases}
use mas_iam_operator.Prelude.Text.{CaseTable}
use mas_iam_operator.Prelude.Dict.{Dict}
use mas_iam_operator.Installer.Components.{
  Quoting, component_order, chosen, add_dependencies, select, unknown_component,
  normalize_install_components,
}
use mas_iam_operator.Installer.Components.Chosen.{
  chosen-nil, has-keep, chosen-add_dependencies, blank_unknown, cleaned, select-chosen,
}

-- The component on the left cannot run without the one on the right.
pub data Needs : String → String → Type 0 where
  scim_needs : Needs "scim" "keycloak"
  keycloak_needs : Needs "keycloak" "ldap"

-- The known component on the right is the one on the left or one that it needs, at any distance.
pub data Requires : String → String → Type 0 where
  itself : {k : String} → has k component_order ≡ true → Requires k k
  through : {j k l : String} → Needs j k → Requires k l → Requires j l

Requires-known : {j k : String} → Requires j k → has j component_order ≡ true
unfolding has
Requires-known (itself h) = h
Requires-known (through scim_needs r) = refl
Requires-known (through keycloak_needs r) = refl

module _ ⦃u : CaseTable⦄ where
  pub normalized_of :
      ⦃q : Quoting⦄
      → (cs ns : List String) → normalize_install_components cs ≡ ok ns
      → (m : Dict Bool) × ((select component_order unknown_component cs [] ≡ ok m)
          × (ns ≡ keep (λ k. chosen k (add_dependencies m)) component_order))
  unfolding normalize_install_components
  normalized_of cs ns e = elim (Result-cases (select component_order unknown_component cs [])) [
    | inl (m, p) ↦ (m, (p, sym (ok_inj (rw (normalize_install_components, p) at e))))
    | inr (x, p) ↦ cc (rw (normalize_install_components, p) at e)
  ]

  has-normalized :
      ⦃q : Quoting⦄
      → (cs ns : List String) → normalize_install_components cs ≡ ok ns
      → (k : String)
      → has k ns ≡ (
          has k component_order
          && (((has "scim" (cleaned cs) || has "keycloak" (cleaned cs)) && "ldap" == k)
              || ((has "scim" (cleaned cs) && "keycloak" == k) || has k (cleaned cs))))
  has-normalized cs ns e k =
      let (m, pq) = normalized_of cs ns e in
      let (p, q) = pq in
      let found = has-keep k (λ k. chosen k (add_dependencies m)) component_order in
      elim (Bool-cases (has k component_order)) [
        | inl known ↦
            ap (has k) q
            ∙ rw (found, known)
                (ground (
                  arith,
                  chosen-add_dependencies k m,
                  chosen-nil k,
                  chosen-nil "scim",
                  chosen-nil "keycloak",
                  select-chosen component_order unknown_component k (blank_unknown k known) cs [] m
                      p,
                  select-chosen component_order unknown_component "scim" refl cs [] m p,
                  select-chosen component_order unknown_component "keycloak" refl cs [] m p,
                ))
        | inr unknown ↦ ap (has k) q ∙ rw (found, unknown) (ground arith)
      ]

  module _ ⦃q : Quoting⦄ (cs ns : List String) (e : normalize_install_components cs ≡ ok ns) where
    Requires-has : {j k : String} → Requires j k → has j ns ≡ true → has k ns ≡ true
    unfolding has
    Requires-has (itself h) c = c
    Requires-has (through scim_needs r) c =
        Requires-has r
          (ground (arith, c, has-normalized cs ns e "scim", has-normalized cs ns e "keycloak"))
    Requires-has (through keycloak_needs r) c =
        Requires-has r
          (ground (arith, c, has-normalized cs ns e "keycloak", has-normalized cs ns e "ldap"))

    Wanted : String → Type 0
    Wanted k = (c : String) × ((has c (cleaned cs) ≡ true) × Requires c k)

    Wanted-keycloak : has "keycloak" ns ≡ true → Wanted "keycloak"
    unfolding Wanted has
    Wanted-keycloak h = elim (Bool-cases (has "keycloak" (cleaned cs))) [
      | inl given ↦ ("keycloak", (given, itself refl))
      | inr absent ↦ (
        "scim",
        (
          ground (arith, h, absent, has-normalized cs ns e "keycloak"),
          through scim_needs (itself refl),
        ),
      )
    ]

    Wanted-ldap : has "ldap" ns ≡ true → Wanted "ldap"
    unfolding Wanted has
    Wanted-ldap h = elim (Bool-cases (has "ldap" (cleaned cs))) [
      | inl given ↦ ("ldap", (given, itself refl))
      | inr absent ↦ elim (Bool-cases (has "scim" (cleaned cs))) [
        | inl s ↦ ("scim", (s, through scim_needs (through keycloak_needs (itself refl))))
        | inr s ↦ (
          "keycloak",
          (
            ground (arith, h, absent, s, has-normalized cs ns e "ldap"),
            through keycloak_needs (itself refl),
          ),
        )
      ]
    ]

    Wanted-at :
        (j k : String) → (j == k) ≡ true → (has j ns ≡ true → Wanted j) → has k ns ≡ true → Wanted k
    Wanted-at j k p f h =
        let path = (eq_iff j k).0 p in rw (← path) (f (ap (λ t. has t ns) path ∙ h))

    Wanted-of : (k : String) → has k ns ≡ true → Wanted k
    unfolding Wanted
    Wanted-of k h = elim (Bool-cases ("keycloak" == k)) [
      | inl kc ↦ Wanted-at "keycloak" k kc Wanted-keycloak h
      | inr no_kc ↦ elim (Bool-cases ("ldap" == k)) [
        | inl ld ↦ Wanted-at "ldap" k ld Wanted-ldap h
        | inr no_ld ↦ (
          k,
          (
            ground (arith, h, no_kc, no_ld, has-normalized cs ns e k),
            itself (ground (arith, h, has-normalized cs ns e k)),
          ),
        )
      ]
    ]

    -- A list that is accepted becomes the known components that its entries require, and no others.
    pub has-normalize_install_components :
        (k : String)
        → (has k ns ≡ true) ↔ ((c : String) × ((has c (cleaned cs) ≡ true) × Requires c k))
    unfolding Wanted
    has-normalize_install_components k = (Wanted-of k, included)
      where
        included : Wanted k → has k ns ≡ true
        included (c, (h, r)) =
            Requires-has r (ground (arith, h, has-normalized cs ns e c, Requires-known r))
