-- ===== src/Installer/Auth/Certificates.antt =====
-- The certificates and the password that the secrets of the cluster hold:
-- tools/mas-iam-installer/internal/app/mas_auth.go.
use Prim.Native.Char.{Char, code}
use Prim.Native.String.{len}
use mas_iam_operator.Prelude.{
  ℕ, suc, String, ◌<>◌, Bool, false, ◌&&◌, ◌||◌, none, some, List, [], ◌∷◌, ◌==◌, leb, ltb, nat_beq,
  if◌then◌else◌, is_nil,
}
use mas_iam_operator.Errors.{message, Result, ok, err, wrap_result}
use mas_iam_operator.Prelude.Text.{CaseTable, trim_space, trim_left, trim_right, to_lower}
use mas_iam_operator.Prelude.Decimal.{itoa}
use mas_iam_operator.Prelude.Dict.{Dict}
use mas_iam_operator.Http.{limit_bytes}
use mas_iam_operator.Installer.Admin.Types.{Certificate}
use mas_iam_operator.Installer.Cluster.{Oc}
use mas_iam_operator.Installer.Cluster.Queries.{Decoders}
use mas_iam_operator.Installer.Cluster.Secrets.{secret_data}
use mas_iam_operator.Prelude.Dict
use Prim.Native.String as S

-- `[a-z0-9]`
is_alias_char : Char → Bool
is_alias_char c =
    (leb b'a' (code c) && leb (code c) b'z') || (leb b'0' (code c) && leb (code c) b'9')

is_dot : Char → Bool
is_dot c = nat_beq (code c) b'.'

starts_with_dot : String → Bool
unfolding is_dot
starts_with_dot S.[] = false
starts_with_dot (S.◌∷◌ c s) = is_dot c

-- `regexp.ReplaceAllString` of `[^a-z0-9]+` by a dot. A dot is replaced too, so one at the front of
-- the rest stands for a run that goes on.
unfoldable pub collapse : String → String
unfolding is_alias_char starts_with_dot
collapse S.[] = ""
collapse (S.◌∷◌ c s) =
    let rest = collapse s in
    if is_alias_char c then S.◌∷◌ c rest else if starts_with_dot rest then rest else "." <> rest

-- What is cut to 24 bytes is ASCII, so no character is cut.
unfoldable pub sanitize_cert_alias : ⦃u : CaseTable⦄ → String → String
unfolding to_lower collapse trim_left trim_right is_dot limit_bytes
sanitize_cert_alias value =
    let trimmed = trim_right is_dot (trim_left is_dot (collapse (to_lower value))) in
    let named = if ltb (len trimmed) 3 then "cert" else trimmed in limit_bytes 24 named

module _ ⦃u : CaseTable⦄ where
  unfoldable pub number_from : ℕ → String → List String → List Certificate
  unfolding sanitize_cert_alias itoa trim_space
  number_from i prefix [] = []
  number_from i prefix (cert ∷ certs) =
      record { alias = sanitize_cert_alias prefix <> ("." <> itoa i); crt = trim_space cert }
      ∷ number_from (suc i) prefix certs

  module _ (oc : Oc) (d : Decoders) (find_certificates : String → List String) where
    -- `find_certificates` is `regexp.FindAllString` with the pattern of a block of a certificate.
    unfoldable pub certificates_from_pem : String → String → List Certificate
    unfolding number_from trim_space
    certificates_from_pem raw prefix =
        let text = trim_space raw in
        if text == "" then [] else number_from 1 prefix (find_certificates text)

    -- `secret[key]`: a missing key reads as "".
    abbrev value_of : String → Dict String → String
    value_of key secret = elim (Dict.lookup key secret) [ none ↦ "" | some v ↦ v ]

    -- The certificates under the first of the keys that has some.
    unfoldable pub first_certs : String → List String → Dict String → List Certificate
    unfolding certificates_from_pem
    first_certs prefix [] secret = []
    first_certs prefix (key ∷ keys) secret =
        let rest = first_certs prefix keys secret in
        let certs = certificates_from_pem (value_of key secret) prefix in
        if is_nil certs then rest else certs

    unfoldable pub ldap_ca_certs : String → String → List Certificate
    unfolding first_certs secret_data
    ldap_ca_certs namespace release =
        elim (secret_data oc d namespace (release <> "-keycloak-openldap-tls")) [
          | err e ↦ []
          | ok secret ↦ first_certs (release <> "-openldap") ("ca.crt" ∷ "tls.crt" ∷ []) secret
        ]

    -- The loop over the names of the secrets. One that cannot be read is passed over.
    unfoldable pub certs_of_secrets : String → List String → List Certificate
    unfolding first_certs secret_data
    certs_of_secrets namespace [] = []
    certs_of_secrets namespace (name ∷ names) =
        let rest = certs_of_secrets namespace names in
        elim (secret_data oc d namespace name) [
          | err e ↦ rest
          | ok secret ↦
              let certs = first_certs name ("keycloak-ca.crt" ∷ "ca.crt" ∷ "tls.crt" ∷ []) secret in
              if is_nil certs then rest else certs
        ]

    unfoldable pub keycloak_route_ca_certs : String → String → List Certificate
    unfolding certs_of_secrets
    keycloak_route_ca_certs namespace release = certs_of_secrets namespace (
        "scim-bridge-keycloak-route-cert"
        ∷ (release <> "-keycloak-route-cert")
        ∷ (release <> "-keycloak-openldap-tls")
        ∷ [])

    unfoldable pub ldap_bind_password : String → String → Result String
    unfolding secret_data
    ldap_bind_password namespace release =
        let named = namespace <> ("/" <> (release <> "-openldap-admin")) in
        elim (wrap_result ("read LDAP admin secret " <> named)
          (secret_data oc d namespace (release <> "-openldap-admin"))) [
            | err e ↦ err e
            | ok secret ↦
                let password = value_of "password" secret in
                if password == ""
                then err (message ("LDAP admin secret " <> (named <> " is missing password")))
                else ok password
          ]
