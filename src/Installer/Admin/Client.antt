-- ===== src/Installer/Admin/Client.antt =====
-- tools/mas-iam-installer/internal/masadmin/client.go
use Prim.Native.String.{len}
use mas_iam_operator.Prelude.{
  ℕ, String, ◌<>◌, inl, inr, Bool, ◌&&◌, ◌||◌, ◌==◌, ltb, leb, if◌then◌else◌,
}
use mas_iam_operator.Errors.{message, Result, ok, err}
use mas_iam_operator.Prelude.Text.{trim_space, trim_right, is_slash}
use mas_iam_operator.Prelude.Affix.{trim_suffix}
use mas_iam_operator.Http.{limit_bytes}
use mas_iam_operator.Installer.Components.{Quoting}
use mas_iam_operator.Installer.Environment.{pos}
use mas_iam_operator.Installer.Admin.Types.{ApiError, AdminError, other, api, wrapping, Fallible}

-- The parts of a `url.URL` that the code reads.
pub record Url : Type 0 where
  pub scheme : String
  pub host : String
  pub hostname : String
  pub path : String
  pub text : String

-- What the client uses of Go's packages `net/url`, `net/http` and `encoding/json`.
-- `read_api_error` gives the fields that `json.Unmarshal` finds, whether it fails or not.
pub record AdminJson : Type 0 where
  pub parse_url : String → Result Url
  pub resolve : Url → String → String
  pub path_escape : String → String
  pub basic_auth : String → String → String
  pub decode_token : String → Result String
  pub read_api_error : String → ApiError

pub record Client : Type 0 where
  pub base_url : Url
  pub token_name : String
  pub token_value : String

unfoldable pub strip_scim_suffix : String → String
unfolding trim_space trim_right is_slash trim_suffix
strip_scim_suffix raw =
    trim_right is_slash (trim_suffix "/scim/v2" (trim_right is_slash (trim_space raw)))

unfoldable pub new_client : ⦃q : Quoting⦄ → AdminJson → String → String → String → Fallible Client
unfolding trim_space strip_scim_suffix
new_client ⦃q⦄ json base_url token_name token_value =
    let root = strip_scim_suffix base_url in
    if trim_space base_url == ""
    then inl (other (message "masadmin: baseURL is required"))
    else elim (json.parse_url root) [
      | err e ↦ inl (wrapping ("masadmin: parse baseURL " <> q.quote root) (other e))
      | ok u ↦
          if u.scheme == "" || u.host == ""
          then inl (
              other (
                message
                  ("masadmin: baseURL " <> (q.quote root <> " must include scheme and host"))))
          else if token_name == "" || token_value == ""
          then inl (other (message "masadmin: tokenName and tokenValue are required"))
          else inr (record { base_url = u; token_name = token_name; token_value = token_value })
    ]

abbrev pub is_success : ℕ → Bool
is_success status = leb 200 status && leb status 299

-- The snippet of a body that stands for the message of an error.
snippet_of : String → String
unfolding trim_space limit_bytes
snippet_of body =
    let snippet = trim_space body in
    if ltb 200 (len snippet) then limit_bytes 200 snippet <> "…" else snippet

unfoldable pub decode_api_error : AdminJson → String → String → ℕ → String → AdminError
unfolding snippet_of
decode_api_error json method path status body =
    let zero_error : ApiError = record {
      status = status;
      error_code = pos 0;
      message = "";
      exception_id = "";
    } in
    let read : ApiError =
      if ltb 0 (len body)
      then record (json.read_api_error body) { status = status }
      else zero_error in
    wrapping ("masadmin: " <> (method <> (" " <> path)))
      (api (if read.message == "" then record read { message = snippet_of body } else read))
