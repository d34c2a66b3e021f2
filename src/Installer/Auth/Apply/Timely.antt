-- ===== src/Installer/Auth/Apply/Timely.antt =====
-- The loop of `maybeWait` in tools/mas-iam-installer/internal/app/mas_auth_api.go ends.
use mas_iam_operator.Prelude.{
  ℕ, zero, suc, ◌+◌, ◌*◌, ◌≤◌, ◌<◌, String, ◌<>◌, ◌≡◌, Bool, true, Option, none, some, arith,
  is_some,
}
use mas_iam_operator.Errors.{Result}
use mas_iam_operator.Http.{Request, Http}
use mas_iam_operator.Installer.Components.{Quoting}
use mas_iam_operator.Installer.Admin.Types.{IdpConfigResponse, Fallible}
use mas_iam_operator.Installer.Admin.Client.{AdminJson, Client}
use mas_iam_operator.Installer.Admin.Session.{Session, Call}
use mas_iam_operator.Installer.Admin.Providers.{
  IdpJson, guarded, fetch, get_ldap, get_oidc, get_saml, no_response,
}
use mas_iam_operator.Installer.Auth.Apply.{
  Timer, poll_interval, Kind, ldap, oidc, saml, get_provider, sleep_on, wait_round, poll,
  maybe_wait,
}
use mas_iam_operator.Installer.Auth.Apply.Clock.{IsSteady, do_json-IsSteady}

module _ ⦃q : Quoting⦄ (json : AdminJson) (idp : IdpJson) (http : Http) (c : Client)
    (t : Timer http)
    (steady : (req : Request) (n : http.State) → t.now n ≤ t.now (http.send req n).1)
    (slept : (d : ℕ) (n : http.State)
      → (t.sleep_ctx d n).0 ≡ none
      → t.now n + d ≤ t.now (t.sleep_ctx d n).1) where
  guarded-IsSteady {ℓ} :
      {A : Type ℓ} (id : String) (call : Call json http c A)
      → IsSteady json http c t.now steady call
      → IsSteady json http c t.now steady (guarded json idp http c id call)
  unfolding guarded
  guarded-IsSteady id call h s = let e = h s in ground arith

  fetch-IsSteady {ℓ} :
      {A : Type ℓ} (initial : A) (decode : String → Result A) (path : String)
      → IsSteady json http c t.now steady (fetch json idp http c initial decode "GET" path none)
  unfolding fetch
  fetch-IsSteady initial decode path s =
      do_json-IsSteady json http c t.now steady path (some decode) "GET" none s

  get_provider-IsSteady :
      (kind : Kind) (id : String)
      → IsSteady json http c t.now steady (get_provider json idp http c kind id)
  unfolding get_provider get_ldap get_oidc get_saml
  get_provider-IsSteady ldap id =
      guarded-IsSteady id _
        (fetch-IsSteady no_response idp.decode_idp ("/config/ldap/" <> json.path_escape id))
  get_provider-IsSteady oidc id =
      guarded-IsSteady id _
        (fetch-IsSteady no_response idp.decode_idp ("/config/oidc/" <> json.path_escape id))
  get_provider-IsSteady saml id =
      guarded-IsSteady id _
        (fetch-IsSteady no_response idp.decode_idp ("/config/saml/" <> json.path_escape id))

  sleep_on_ends :
      (again : Session json http c → Option (Fallible (Unit {0}) × Session json http c))
      (s : Session json http c)
      → ((s' : Session json http c)
          → t.now s.network + poll_interval ≤ t.now s'.network
          → is_some (again s') ≡ true)
      → is_some (sleep_on json idp http c t again s) ≡ true
  unfolding sleep_on
  sleep_on_ends again s h =
      let e = slept poll_interval s.network in
      let k = h (record s { network = (t.sleep_ctx poll_interval s.network).1 }) in ground arith

  wait_round_ends :
      (timeout deadline : ℕ) (kind : Kind) (id : String)
      (again : Session json http c → Option (Fallible (Unit {0}) × Session json http c))
      (r : Fallible IdpConfigResponse × Session json http c)
      → (t.now r.1.network ≤ deadline → is_some (sleep_on json idp http c t again r.1) ≡ true)
      → is_some (wait_round json idp http c t timeout deadline kind id again r) ≡ true
  unfolding wait_round
  wait_round_ends timeout deadline kind id again (polled, s) h = ground arith

  poll_step :
      (fuel timeout deadline : ℕ) (kind : Kind) (id : String) (s : Session json http c)
      → ((s' : Session json http c)
          → t.now s.network ≤ deadline
          → t.now s.network + poll_interval ≤ t.now s'.network
          → is_some (poll json idp http c t fuel timeout deadline kind id s') ≡ true)
      → is_some (poll json idp http c t (suc fuel) timeout deadline kind id s) ≡ true
  unfolding poll
  poll_step fuel timeout deadline kind id s h =
      let again = poll json idp http c t fuel timeout deadline kind id in
      let r = get_provider json idp http c kind id s in
      let e = get_provider-IsSteady kind id s in
      wait_round_ends timeout deadline kind id again r
        λ early. sleep_on_ends again r.1 λ s' k. h s' (omega arith) (omega arith)

  -- If a request does not turn the clock back and a pause that is not cut short lasts as long as
  -- it should, then the loop ends, with fuel for one more round than the pauses that fit between
  -- the time it begins and the deadline.
  pub poll_ends :
      (fuel timeout deadline : ℕ) (kind : Kind) (id : String) (s : Session json http c)
      → deadline < t.now s.network + fuel * poll_interval
      → is_some (poll json idp http c t (suc fuel) timeout deadline kind id s) ≡ true
  poll_ends zero timeout deadline kind id s h =
      poll_step zero timeout deadline kind id s λ s' early k. ground arith
  poll_ends (suc fuel) timeout deadline kind id s h =
      poll_step (suc fuel) timeout deadline kind id s
        λ s' early k. poll_ends fuel timeout deadline kind id s' (omega arith)

  -- The same for `maybeWait`, with fuel for a round more than the pauses that fill the timeout.
  pub maybe_wait_ends :
      (fuel : ℕ) (wait : Bool) (timeout : ℕ) (kind : Kind) (id : String)
      (initial : IdpConfigResponse) (s : Session json http c)
      → timeout < fuel * poll_interval
      → is_some (maybe_wait json idp http c t (suc fuel) wait timeout kind id initial s) ≡ true
  unfolding maybe_wait
  maybe_wait_ends fuel wait timeout kind id initial s h =
      let e = poll_ends fuel timeout (t.now s.network + timeout) kind id s (omega arith) in
      ground arith
