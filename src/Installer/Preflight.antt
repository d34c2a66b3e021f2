-- ===== src/Installer/Preflight.antt =====
-- The checks before an installation: the types of
-- tools/mas-iam-installer/internal/preflight/preflight.go.
pub mod Overwrite
pub mod Probes
pub mod Run
use mas_iam_operator.Prelude.{
  ℕ, zero, suc, ◌+◌, ◌-◌, ◌*◌, ◌≤◌, ◌<◌, String, ◌<>◌, ◌≡◌, refl, sym, ap, ◌∙◌, ◌≢◌, ◌↔◌, ◌⊎◌, inl,
  inr, Bool, true, false, not, ◌&&◌, ◌||◌, Option, none, some, List, [], ◌∷◌, ◌++◌, arith, ◌==◌,
  starts_with, eq_iff, eq_refl, ltb, leb, nat_beq, if◌then◌else◌, Bool-cases, Option-cases, is_some,
  is_nil, length, take, drop, keep, All, has, has-append,
}
use mas_iam_operator.Errors.{
  ResponseError, Error, message, response, mas_unauthorized, wrapped, as_response, is_unauthorized,
  Result, ok, err, wrap_error, wrap_result,
}
use mas_iam_operator.Installer.Storage.{StorageRanking}

pub data Status : Type 0 where
  status_ok : Status
  status_warn : Status
  status_error : Status

unfoldable pub status_text : Status → String
status_text status_ok = "ok"
status_text status_warn = "warn"
status_text status_error = "error"

unfoldable pub is_error : Status → Bool
is_error status_ok = false
is_error status_warn = false
is_error status_error = true

pub record IdpCfgPlan : Type 0 where
  pub core_namespace : String
  pub instance_id : String
  pub providers : List String
  pub ldap_provider_id : String
  pub oidc_provider_id : String
  pub saml_provider_id : String

pub record Input : Type 0 where
  pub namespace : String
  pub mas_base_url : String
  pub check_oidc_endpoint : Bool
  pub api_token_name : String
  pub api_token_value : String
  pub check_idp_cfg_overwrite : Bool
  pub idp_cfg_plan : IdpCfgPlan

-- `Result`
pub record Finding : Type 0 where
  pub name : String
  pub status : Status
  pub text : String

pub record Report : Type 0 where
  pub namespace : String
  pub cluster_user : String
  pub cluster_server : String
  pub mas_host : String
  pub storage : StorageRanking
  pub results : List Finding

unfoldable pub any_error : List Finding → Bool
unfolding is_error
any_error [] = false
any_error (r ∷ rs) = is_error r.status || any_error rs

unfoldable pub has_failures : Report → Bool
unfolding any_error
has_failures r = any_error r.results

-- `Result{Name: name, Status: …, Message: …}`
abbrev pub warn : String → String → Finding
warn name text = record { name = name; status = status_warn; text = text }

abbrev pub fine : String → String → Finding
fine name text = record { name = name; status = status_ok; text = text }

abbrev pub failure : String → String → Finding
failure name text = record { name = name; status = status_error; text = text }
