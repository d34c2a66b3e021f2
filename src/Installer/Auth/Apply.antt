-- ===== src/Installer/Auth/Apply.antt =====
-- How the providers are configured at MAS's administration interface:
-- tools/mas-iam-installer/internal/app/mas_auth_api.go.
pub mod Clock
pub mod Timely
use mas_iam_operator.Prelude.{
  ℕ, zero, suc, ◌+◌, String, ◌<>◌, inl, inr, Bool, true, false, not, ◌&&◌, ◌||◌, Option, none, some,
  List, [], ◌∷◌, ◌==◌, ltb, if◌then◌else◌,
}
use mas_iam_operator.Errors.{Error, message, Result, ok, err}
use mas_iam_operator.Http.{Http}
use mas_iam_operator.Installer.Components.{Quoting}
use mas_iam_operator.Installer.Admin.Types.{
  IdpConfigResponse, AdminError, other, wrapping, Fallible, ready, is_not_found,
}
use mas_iam_operator.Installer.Admin.Client.{AdminJson, Client}
use mas_iam_operator.Installer.Admin.Session.{Session, Call}
use mas_iam_operator.Installer.Admin.Providers.{IdpJson, get_ldap, get_oidc, get_saml}
use mas_iam_operator.Installer.Auth.{condition_summary}

-- The clock: `time.Now()` in nanoseconds, a timer that a context can cut short, and the verb `%s`
-- for a duration.
pub record Timer (http : Http) : Type 0 where
  pub now : http.State → ℕ
  pub sleep_ctx : ℕ → http.State → Option Error × http.State
  pub duration_text : ℕ → String

abbrev pub poll_interval : ℕ
poll_interval = 5000000000

-- The kinds of `maybeWait`, at which it is called.
pub data Kind : Type 0 where
  ldap : Kind
  oidc : Kind
  saml : Kind

abbrev pub kind_name : Kind → String
kind_name ldap = "ldap"
kind_name oidc = "oidc"
kind_name saml = "saml"

-- The response of a poll; none for nil.
unfoldable pub response_of : Fallible IdpConfigResponse → Option IdpConfigResponse
response_of (inl e) = none
response_of (inr r) = some r

unfoldable pub is_ready : Option IdpConfigResponse → Bool
unfolding ready
is_ready none = false
is_ready (some r) = ready r

-- `err != nil && !masadmin.IsNotFound(err)`
unfoldable pub fatal : Fallible IdpConfigResponse → Option AdminError
unfolding is_not_found
fatal (inl e) = if is_not_found e then none else some e
fatal (inr r) = none

module _ ⦃q : Quoting⦄ (json : AdminJson) (idp : IdpJson) (http : Http) (c : Client) where
  unfoldable pub get_provider : Kind → String → Call json http c IdpConfigResponse
  get_provider ldap id = get_ldap json idp http c id
  get_provider oidc id = get_oidc json idp http c id
  get_provider saml id = get_saml json idp http c id

  module _ (t : Timer http) where
    abbrev about_provider : Kind → String → String
    about_provider kind id = kind_name kind <> ("/" <> id)

    timed_out : ℕ → Kind → String → Option IdpConfigResponse → AdminError
    unfolding condition_summary
    timed_out timeout kind id resp = other (
        message (
          "timed out waiting "
          <> (t.duration_text timeout
              <> (" for "
                  <> (about_provider kind id
                      <> (" to become Ready: " <> condition_summary resp))))))

    -- What a round of the loop that does not end with an error or a provider that is ready does:
    -- `again` is the rest of the loop.
    unfoldable pub sleep_on :
        (Session json http c → Option (Fallible (Unit {0}) × Session json http c))
        → Session json http c
        → Option (Fallible (Unit {0}) × Session json http c)
    sleep_on again s =
        let (stopped, network) = t.sleep_ctx poll_interval s.network in
        let s' : Session json http c = record s { network = network } in
        elim stopped [ some e ↦ some (inl (other e), s') | none ↦ again s' ]

    unfoldable pub wait_round :
        ℕ
        → ℕ
        → Kind
        → String
        → (Session json http c → Option (Fallible (Unit {0}) × Session json http c))
        → Fallible IdpConfigResponse × Session json http c
        → Option (Fallible (Unit {0}) × Session json http c)
    unfolding sleep_on fatal is_ready response_of timed_out
    wait_round timeout deadline kind id again (polled, s) = elim (fatal polled) [
      | some e ↦ some (inl (wrapping ("poll " <> about_provider kind id) e), s)
      | none ↦
          if is_ready (response_of polled)
          then some (inr tt, s)
          else if ltb deadline (t.now s.network)
          then some (inl (timed_out timeout kind id (response_of polled)), s)
          else sleep_on again s
    ]

    -- The loop, on fuel; none when the fuel runs out.
    unfoldable pub poll :
        ℕ
        → ℕ
        → ℕ
        → Kind
        → String
        → Session json http c
        → Option (Fallible (Unit {0}) × Session json http c)
    unfolding wait_round get_provider
    poll zero timeout deadline kind id s = none
    poll (suc fuel) timeout deadline kind id s =
        wait_round timeout deadline kind id (poll fuel timeout deadline kind id)
          (get_provider kind id s)

    -- `wait` and `timeout` are the fields of the options; `initial` is the answer to the PUT.
    unfoldable pub maybe_wait :
        ℕ
        → Bool
        → ℕ
        → Kind
        → String
        → IdpConfigResponse
        → Session json http c
        → Option (Fallible (Unit {0}) × Session json http c)
    unfolding ready poll
    maybe_wait fuel wait timeout kind id initial s =
        if not wait || ready initial
        then some (inr tt, s)
        else poll fuel timeout (t.now s.network + timeout) kind id s
