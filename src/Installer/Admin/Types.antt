-- ===== src/Installer/Admin/Types.antt =====
-- tools/mas-iam-installer/internal/masadmin/types.go
use mas_iam_operator.Prelude.{
  ℕ, String, ◌⊎◌, inl, inr, Bool, false, ◌&&◌, ◌||◌, Option, none, some, List, [], ◌∷◌, ◌==◌,
  nat_beq, ◌<>◌, if◌then◌else◌,
}
use mas_iam_operator.Errors.{Error, error_text, Result, ok, err}
use mas_iam_operator.Prelude.Decimal.{itoa}
use mas_iam_operator.Installer.Environment.{ℤ}

pub record Certificate : Type 0 where
  pub alias : String
  pub crt : String

pub record LdapConfigRequest : Type 0 where
  pub display_name : String
  pub url : String
  pub base_dn : String
  pub bind_dn : String
  pub bind_password : String
  pub user_id_map : String
  pub certificates : List Certificate

pub record OidcConfigRequest : Type 0 where
  pub display_name : String
  pub client_id : String
  pub client_secret : String
  pub discovery_endpoint_url : String
  pub issuer_identifier : String
  pub authorization_endpoint_url : String
  pub token_endpoint_url : String
  pub jwk_endpoint_url : String
  pub token_endpoint_auth_method : String
  pub token_endpoint_auth_signing_algorithm : String
  pub user_identifier : String
  pub signature_algorithm : String
  pub certificates : List Certificate

pub record SamlSpConfigRequest : Type 0 where
  pub display_name : String
  pub issuer : String
  pub service_provider_name : String
  pub name_id_format : String
  pub sp_initiated_logout : Option Bool

pub record LdapTestResult : Type 0 where
  pub success : Bool

-- `Type` is a keyword, so the field is `condition_type`.
pub record IdpCondition : Type 0 where
  pub condition_type : String
  pub status : String
  pub reason : String
  pub message : String
  pub last_transition_time : String

-- The response with its `Metadata` and its `Status.Conditions`.
pub record IdpConfigResponse : Type 0 where
  pub creation_timestamp : String
  pub deletion_timestamp : String
  pub conditions : List IdpCondition

unfoldable pub any_ready : List IdpCondition → Bool
any_ready [] = false
any_ready (c ∷ cs) = (c.condition_type == "Ready" && c.status == "True") || any_ready cs

unfoldable pub ready : IdpConfigResponse → Bool
unfolding any_ready
ready r = any_ready r.conditions

pub record SamlIdpMetadataResponse : Type 0 where
  pub creation_timestamp : String
  pub deletion_timestamp : String
  pub idp_metadata_xml : String

pub record ApiError : Type 0 where
  pub status : ℕ
  pub error_code : ℤ
  pub message : String
  pub exception_id : String

-- `other` is an error of Go's own packages, or a text. `noting` is `fmt.Errorf("%w<text>", err)`.
pub data AdminError : Type 0 where
  other : Error → AdminError
  api : ApiError → AdminError
  wrapping : String → AdminError → AdminError
  noting : AdminError → String → AdminError

-- `errors.As(err, &apiErr)`
unfoldable pub as_api_error : AdminError → Option ApiError
as_api_error (other e) = none
as_api_error (api e) = some e
as_api_error (wrapping text e) = as_api_error e
as_api_error (noting e text) = as_api_error e

unfoldable pub is_not_found : AdminError → Bool
unfolding as_api_error
is_not_found e = elim (as_api_error e) [ none ↦ false | some a ↦ nat_beq a.status 404 ]

-- `err.Error()`
unfoldable pub api_error_text : ApiError → String
unfolding itoa
api_error_text e =
    let status = "HTTP " <> itoa e.status in
    if e.message == "" then status else status <> (": " <> e.message)

unfoldable pub admin_error_text : AdminError → String
unfolding api_error_text error_text
admin_error_text (other e) = error_text e
admin_error_text (api e) = api_error_text e
admin_error_text (wrapping text e) = text <> (": " <> admin_error_text e)
admin_error_text (noting e text) = admin_error_text e <> text

-- A `(value, error)` result.
abbrev pub Fallible {ℓ} : Type ℓ → Type ℓ
Fallible A = AdminError ⊎ A

abbrev pub from_result {ℓ} : {A : Type ℓ} → Result A → Fallible A
from_result (ok a) = inr a
from_result (err e) = inl (other e)
