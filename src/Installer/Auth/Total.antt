-- ===== src/Installer/Auth/Total.antt =====
-- The configuration of the identity providers ends:
-- tools/mas-iam-installer/internal/app/mas_auth_api.go.
use mas_iam_operator.Prelude.{
  ℕ, suc, ◌+◌, ◌*◌, ◌≤◌, ◌<◌, String, ◌≡◌, refl, inl, inr, Bool, true, Option, none, some, List,
  arith, is_some,
}
use mas_iam_operator.Errors.{Result, ok, err}
use mas_iam_operator.Http.{Request, Http}
use mas_iam_operator.Installer.Components.{Quoting}
use mas_iam_operator.Installer.Admin.Types.{Certificate, IdpConfigResponse, AdminError, Fallible}
use mas_iam_operator.Installer.Admin.Client.{AdminJson, Client}
use mas_iam_operator.Installer.Admin.Session.{Session}
use mas_iam_operator.Installer.Admin.Providers.{IdpJson}
use mas_iam_operator.Installer.Auth.{MasAuthApplyOptions, KeycloakMasClients}
use mas_iam_operator.Installer.Auth.Apply.{Timer, poll_interval, Kind, ldap, oidc, saml}
use mas_iam_operator.Installer.Auth.Apply.Timely.{maybe_wait_ends}
use mas_iam_operator.Installer.Auth.Pipeline.{
  Machine, Step, next, when_configured, and_after, self_reg_step, wait_for, ldap_step, oidc_step,
  metadata_step, saml_step, link_step, apply_via_admin_api,
}

module _ ⦃q : Quoting⦄ (json : AdminJson) (idp : IdpJson) (http : Http) (c : Client)
    (t : Timer http) (m : Machine http) (o : MasAuthApplyOptions) (fuel : ℕ) (wait : Bool)
    (timeout : ℕ) where
  abbrev Ends : Step json idp http c t m o (suc fuel) wait timeout → Type 0
  Ends step = (s : Session json http c) → is_some (step s) ≡ true

  next-Ends :
      (r : Option (Fallible (Unit {0}) × Session json http c))
      (step : Step json idp http c t m o (suc fuel) wait timeout)
      → is_some r ≡ true
      → Ends step
      → is_some (next json idp http c t m o (suc fuel) wait timeout r step) ≡ true
  unfolding next
  next-Ends none step h k = h
  next-Ends (some (inl e, s)) step h k = refl
  next-Ends (some (inr u, s)) step h k = k s

  module _ (steady : (req : Request) (n : http.State) → t.now n ≤ t.now (http.send req n).1)
      (slept : (d : ℕ) (n : http.State)
        → (t.sleep_ctx d n).0 ≡ none
        → t.now n + d ≤ t.now (t.sleep_ctx d n).1)
      (enough : timeout < fuel * poll_interval) where
    wait-Ends :
        (kind : Kind) (id : String) (resp : IdpConfigResponse)
        → Ends (wait_for json idp http c t m o (suc fuel) wait timeout kind id resp)
    wait-Ends kind id resp s =
        maybe_wait_ends json idp http c t steady slept fuel wait timeout kind id resp s enough

    after-Ends :
        (about : AdminError → AdminError) (r : Fallible IdpConfigResponse × Session json http c)
        (f : IdpConfigResponse → Step json idp http c t m o (suc fuel) wait timeout)
        → ((resp : IdpConfigResponse) → Ends (f resp))
        → is_some (and_after json idp http c t m o (suc fuel) wait timeout about r f) ≡ true
    unfolding and_after
    after-Ends about (inl e, s) f h = refl
    after-Ends about (inr resp, s) f h = h resp s

    when-Ends :
        (provider : String) (step : Step json idp http c t m o (suc fuel) wait timeout)
        → Ends step
        → Ends (when_configured json idp http c t m o (suc fuel) wait timeout provider step)
    unfolding when_configured
    when-Ends provider step h s = let e = h s in ground arith

    ldap-Ends :
        (password : Result String) (certificates : List Certificate)
        → Ends (ldap_step json idp http c t m o (suc fuel) wait timeout password certificates)
    unfolding ldap_step
    ldap-Ends (err e) certificates s = refl
    ldap-Ends (ok password) certificates s = after-Ends _ _ _ (wait-Ends ldap o.ldap_provider_id)

    oidc-Ends :
        (kc : KeycloakMasClients)
        → Ends (oidc_step json idp http c t m o (suc fuel) wait timeout kc)
    unfolding oidc_step
    oidc-Ends kc s = after-Ends _ _ _ (wait-Ends oidc o.oidc_provider_id)

    metadata-Ends :
        (kc : KeycloakMasClients)
        → Ends (metadata_step json idp http c t m o (suc fuel) wait timeout kc)
    unfolding metadata_step
    metadata-Ends kc s = ground arith

    saml-Ends :
        (kc : KeycloakMasClients)
        → Ends (saml_step json idp http c t m o (suc fuel) wait timeout kc)
    unfolding saml_step
    saml-Ends kc s =
        after-Ends _ _ _
          λ resp s'. next-Ends _ _ (metadata-Ends kc s') (wait-Ends saml o.saml_provider_id resp)

    link-Ends : Ends (link_step json idp http c t m o (suc fuel) wait timeout)
    unfolding link_step
    link-Ends s = ground arith

    -- If a request does not turn the clock back, a pause that is not cut short lasts as long as it
    -- should, and the fuel is one more than a number of pauses that together are longer than the
    -- timeout, then configuring the identity providers ends, whatever MAS and the cluster answer.
    pub apply_via_admin_api_ends :
        (kc : KeycloakMasClients) (password : Result String) (certificates : List Certificate)
        (s : Session json http c)
        → is_some (
            apply_via_admin_api json idp http c t m o
              (suc fuel)
              wait
              timeout
              kc
              password
              certificates
              s)
          ≡ true
    unfolding apply_via_admin_api self_reg_step
    apply_via_admin_api_ends kc password certificates s =
        next-Ends (self_reg_step json idp http c t m o (suc fuel) wait timeout s) _ refl λ s1.
          next-Ends _ _ (when-Ends "ldap" _ (ldap-Ends password certificates) s1) λ s2.
            next-Ends _ _ (when-Ends "oidc" _ (oidc-Ends kc) s2)
              λ s3. next-Ends _ _ (when-Ends "saml" _ (saml-Ends kc) s3) link-Ends
