-- ===== src/Installer/Admin/Providers.antt =====
-- tools/mas-iam-installer/internal/masadmin/idp.go
use Prim.Native.String.{len}
use mas_iam_operator.Prelude.{
  String, ◌<>◌, inl, inr, false, ◌||◌, Option, none, some, [], ◌==◌, ltb, if◌then◌else◌,
}
use mas_iam_operator.Errors.{message, Result}
use mas_iam_operator.Prelude.Text.{trim_space}
use mas_iam_operator.Prelude.Decimal.{itoa}
use mas_iam_operator.Http.{Http}
use mas_iam_operator.Installer.Components.{Quoting}
use mas_iam_operator.Installer.Admin.Types.{
  LdapConfigRequest, OidcConfigRequest, SamlSpConfigRequest, LdapTestResult, IdpConfigResponse,
  SamlIdpMetadataResponse, AdminError, other, Fallible,
}
use mas_iam_operator.Installer.Admin.Client.{AdminJson, Client}
use mas_iam_operator.Installer.Admin.Session.{Call, do_json, do_multipart}

-- The encodings of the requests and responses in `encoding/json` and `mime/multipart`. A part's
-- writer gives the body and its content type.
pub record IdpJson : Type 0 where
  pub encode_ldap : LdapConfigRequest → Result String
  pub encode_oidc : OidcConfigRequest → Result String
  pub encode_saml : SamlSpConfigRequest → Result String
  pub decode_idp : String → Result IdpConfigResponse
  pub decode_ldap_test : String → Result LdapTestResult
  pub decode_metadata : String → Result SamlIdpMetadataResponse
  pub form_file : String → String → String → Fallible (String × String)

abbrev pub no_response : IdpConfigResponse
no_response = record { creation_timestamp = ""; deletion_timestamp = ""; conditions = [] }

-- `&out` for an `out` that starts as the zero value.
abbrev pub or_zero {ℓ} : {A : Type ℓ} → A → Fallible (Option A) → Fallible A
or_zero initial (inl e) = inl e
or_zero initial (inr none) = inr initial
or_zero initial (inr (some a)) = inr a

module _ ⦃q : Quoting⦄ where
  -- The test is on the identifier without the space around it, and `len` counts bytes.
  unfoldable pub validate_idp_id : String → Option AdminError
  unfolding trim_space itoa
  validate_idp_id raw =
      let id = trim_space raw in
      if ltb (len id) 3 || ltb 24 (len id)
      then some (
          other (
            message (
              "masadmin: idpId "
              <> (q.quote id <> (" must be 3-24 characters (got " <> (itoa (len id) <> ")"))))))
      else none

  module _ (json : AdminJson) (idp : IdpJson) (http : Http) (c : Client) where
    -- A call that is made when the identifier passes the test.
    unfoldable pub guarded {ℓ} : {A : Type ℓ} → String → Call json http c A → Call json http c A
    unfolding validate_idp_id
    guarded id call s = elim (validate_idp_id id) [ some e ↦ (inl e, s) | none ↦ call s ]

    -- A call whose answer is decoded into a value that starts as zero.
    unfoldable pub fetch {ℓ} :
        {A : Type ℓ}
        → A
        → (String → Result A)
        → String
        → String
        → Option (Result String)
        → Call json http c A
    unfolding do_json
    fetch initial decode method path body s =
        let (r, s') = do_json json http c method path body (some decode) s in
        (or_zero initial r, s')

    remove : String → Call json http c (Unit {0})
    unfolding do_json
    remove path s =
        let (r, s') = do_json json http c {A = Unit {0}} "DELETE" path none none s in
        (or_zero tt r, s')

    unfoldable pub set_ldap : String → LdapConfigRequest → Call json http c IdpConfigResponse
    unfolding guarded fetch
    set_ldap id req = guarded id (
        fetch no_response idp.decode_idp "PUT" ("/config/ldap/" <> json.path_escape id)
          (some (idp.encode_ldap req)))

    unfoldable pub test_ldap : LdapConfigRequest → Call json http c LdapTestResult
    unfolding fetch
    test_ldap req =
        fetch (record { success = false }) idp.decode_ldap_test "POST" "/config/ldap-test"
          (some (idp.encode_ldap req))

    unfoldable pub delete_ldap : String → Call json http c (Unit {0})
    unfolding guarded remove
    delete_ldap id = guarded id (remove ("/config/ldap/" <> json.path_escape id))

    unfoldable pub get_ldap : String → Call json http c IdpConfigResponse
    unfolding guarded fetch
    get_ldap id =
        guarded id
          (fetch no_response idp.decode_idp "GET" ("/config/ldap/" <> json.path_escape id) none)

    unfoldable pub set_oidc : String → OidcConfigRequest → Call json http c IdpConfigResponse
    unfolding guarded fetch
    set_oidc id req = guarded id (
        fetch no_response idp.decode_idp "PUT" ("/config/oidc/" <> json.path_escape id)
          (some (idp.encode_oidc req)))

    unfoldable pub delete_oidc : String → Call json http c (Unit {0})
    unfolding guarded remove
    delete_oidc id = guarded id (remove ("/config/oidc/" <> json.path_escape id))

    unfoldable pub get_oidc : String → Call json http c IdpConfigResponse
    unfolding guarded fetch
    get_oidc id =
        guarded id
          (fetch no_response idp.decode_idp "GET" ("/config/oidc/" <> json.path_escape id) none)

    unfoldable pub set_saml_sp : String → SamlSpConfigRequest → Call json http c IdpConfigResponse
    unfolding guarded fetch
    set_saml_sp id req = guarded id (
        fetch no_response idp.decode_idp "PUT" ("/config/saml/" <> json.path_escape id)
          (some (idp.encode_saml req)))

    abbrev no_metadata : SamlIdpMetadataResponse
    no_metadata = record { creation_timestamp = ""; deletion_timestamp = ""; idp_metadata_xml = "" }

    upload : String → Fallible (String × String) → Call json http c SamlIdpMetadataResponse
    unfolding do_multipart
    upload path (inl e) s = (inl e, s)
    upload path (inr (body, content_type)) s =
        let (r, s') =
          do_multipart json http c "PUT" path body content_type (some idp.decode_metadata) s in
        (or_zero no_metadata r, s')

    unfoldable pub set_saml_idp_metadata :
        String → String → Call json http c SamlIdpMetadataResponse
    unfolding guarded upload
    set_saml_idp_metadata id metadata_xml = guarded id λ s.
        if metadata_xml == ""
        then (inl (other (message "masadmin: SAML IdP metadata XML is empty")), s)
        else upload ("/config/saml/" <> (json.path_escape id <> "/metadata"))
            (idp.form_file "file" (id <> "-idp-metadata.xml") metadata_xml) s

    unfoldable pub delete_saml : String → Call json http c (Unit {0})
    unfolding guarded remove
    delete_saml id = guarded id (remove ("/config/saml/" <> json.path_escape id))

    unfoldable pub get_saml : String → Call json http c IdpConfigResponse
    unfolding guarded fetch
    get_saml id =
        guarded id
          (fetch no_response idp.decode_idp "GET" ("/config/saml/" <> json.path_escape id) none)
