-- ===== src/Installer/Auth/Pipeline.antt =====
-- `applyViaAdminAPI` of tools/mas-iam-installer/internal/app/mas_auth_api.go.
use mas_iam_operator.Prelude.{
  ℕ, String, ◌<>◌, inl, inr, Bool, Option, none, some, List, [], ◌∷◌, ◌==◌, ◌++◌, if◌then◌else◌,
}
use mas_iam_operator.Errors.{Error, message, wrapped, Result, ok, err, wrap_error}
use mas_iam_operator.Http.{Http}
use mas_iam_operator.Installer.Components.{Quoting}
use mas_iam_operator.Installer.Admin.Types.{
  Certificate, IdpConfigResponse, AdminError, other, wrapping, noting, Fallible,
}
use mas_iam_operator.Installer.Admin.Client.{AdminJson, Client}
use mas_iam_operator.Installer.Admin.Session.{Session}
use mas_iam_operator.Installer.Admin.Providers.{
  IdpJson, set_ldap, set_oidc, set_saml_sp, set_saml_idp_metadata,
}
use mas_iam_operator.Installer.Cluster.Secrets.{apply_args}
use mas_iam_operator.Installer.Auth.{
  MasAuthApplyOptions, KeycloakMasClients, ConfigMap, has_provider, self_reg_config_map, link_type,
  link_scim_users_args, build_ldap_request, build_oidc_request, build_saml_sp_request,
  is_oidc_admin_api_missing,
}
use mas_iam_operator.Installer.Auth.Apply.{Timer, Kind, ldap, oidc, saml, maybe_wait}

-- The process runner, the environment, the file system and the encoder: what the steps use of
-- Go's packages, at the state of the network and the cluster. `with_input` runs a command with a
-- text on its standard input.
pub record Machine (http : Http) : Type 0 where
  pub with_input : List String → String → http.State → Result String × http.State
  pub run_script : String → List String → http.State → Result String × http.State
  pub encode_config_map : ConfigMap → Result String
  pub getenv : String → String
  pub file_exists : String → Bool
  pub join_file : List String → String

module _ {http : Http} (m : Machine http) where
  -- The first of the paths that is there.
  first_there : List String → Option String
  first_there [] = none
  first_there (p ∷ ps) = let rest = first_there ps in if m.file_exists p then some p else rest

  -- The path under the root that a variable names, if the variable is set.
  under_root : String → String → List String
  under_root variable name =
      let root = m.getenv variable in
      if root == "" then [] else m.join_file (root ∷ "scripts" ∷ name ∷ []) ∷ []

  unfoldable pub repo_script_path : String → Result String
  unfolding first_there under_root
  repo_script_path name =
      elim (first_there (
        under_root "MAS_EST_REPO_ROOT" name
        ++ (under_root "MAS_IAM_REPO_ROOT" name
            ++ (m.join_file ("scripts" ∷ name ∷ [])
                ∷ m.join_file (".." ∷ ".." ∷ "scripts" ∷ name ∷ [])
                ∷ m.join_file (".." ∷ ".." ∷ ".." ∷ "scripts" ∷ name ∷ [])
                ∷ [])))) [
                  | some p ↦ ok p
                  | none ↦
                      err (message ("script " <> (name <> " not found; set MAS_EST_REPO_ROOT")))
                ]

  -- `applyManifest`
  unfoldable pub apply_manifest : ConfigMap → http.State → Option Error × http.State
  unfolding apply_args
  apply_manifest manifest n = elim (m.encode_config_map manifest) [
    | err e ↦ (some (wrapped "encode manifest" e), n)
    | ok raw ↦
        let (applied, n') = m.with_input apply_args raw n in
        (elim applied [ err e ↦ some e | ok text ↦ none ], n')
  ]

  unfoldable pub apply_self_reg_config_map :
      MasAuthApplyOptions → http.State → Option Error × http.State
  unfolding self_reg_config_map apply_manifest
  apply_self_reg_config_map o n = elim (self_reg_config_map o) [
    | none ↦ (none, n)
    | some manifest ↦
        let (failed, n') = apply_manifest manifest n in
        (wrap_error "apply self-reg configmap" failed, n')
  ]

  unfoldable pub link_scim_users_to_idp :
      MasAuthApplyOptions → String → http.State → Option Error × http.State
  unfolding repo_script_path link_scim_users_args
  link_scim_users_to_idp o provider_type n = elim (repo_script_path "link-scim-users-oidc.sh") [
    | err e ↦ (some e, n)
    | ok path ↦
        let (ran, n') = m.run_script path (link_scim_users_args o provider_type) n in
        (elim ran [ err e ↦ some e | ok text ↦ none ], n')
  ]

-- The steps are on fuel for the waits; none when it runs out. `password` and `certificates` are
-- what `ldapBindPassword` and `ldapCACerts` read, and `c` is the client that `newMASAdminClient`
-- builds.
module _ ⦃q : Quoting⦄ (json : AdminJson) (idp : IdpJson) (http : Http) (c : Client)
    (t : Timer http) (m : Machine http) (o : MasAuthApplyOptions) (fuel : ℕ) (wait : Bool)
    (timeout : ℕ) where
  abbrev pub Step : Type 0
  Step = Session json http c → Option (Fallible (Unit {0}) × Session json http c)

  -- The next step, unless this one ends with an error.
  unfoldable pub next :
      Option (Fallible (Unit {0}) × Session json http c)
      → Step
      → Option (Fallible (Unit {0}) × Session json http c)
  next none step = none
  next (some (inl e, s)) step = some (inl e, s)
  next (some (inr u, s)) step = step s

  unfoldable pub when_configured : String → Step → Step
  unfolding has_provider
  when_configured provider step s = if has_provider o provider then step s else some (inr tt, s)

  -- `if resp, err := mc.Set…; err != nil { return … }`, and then what is done with the response.
  unfoldable pub and_after :
      (AdminError → AdminError)
      → Fallible IdpConfigResponse × Session json http c
      → (IdpConfigResponse → Step)
      → Option (Fallible (Unit {0}) × Session json http c)
  and_after about (inl e, s) f = some (inl (about e), s)
  and_after about (inr resp, s) f = f resp s

  unfoldable pub self_reg_step : Step
  unfolding apply_self_reg_config_map
  self_reg_step s =
      let (failed, network) = apply_self_reg_config_map m o s.network in
      let s' : Session json http c = record s { network = network } in
      some (elim failed [ some e ↦ inl (other e) | none ↦ inr tt ], s')

  abbrev pub wait_for : Kind → String → IdpConfigResponse → Step
  wait_for kind id resp = maybe_wait json idp http c t fuel wait timeout kind id resp

  unfoldable pub ldap_step : Result String → List Certificate → Step
  unfolding build_ldap_request set_ldap and_after
  ldap_step (err e) certificates s = some (inl (other e), s)
  ldap_step (ok password) certificates s =
      and_after (wrapping ("setLDAPConfig " <> o.ldap_provider_id))
        (set_ldap json idp http c o.ldap_provider_id (build_ldap_request o password certificates) s)
        (wait_for ldap o.ldap_provider_id)

  -- The error of a MAS without the OIDC interface says so.
  unfoldable pub about_oidc : AdminError → AdminError
  unfolding is_oidc_admin_api_missing
  about_oidc e =
      let note =
        "; MAS does not expose the OIDC external-IdP API (requires MAS 9.1+); re-run with "
        <> "--mas-auth-providers ldap,saml" in
      wrapping ("setOIDCConfig " <> o.oidc_provider_id)
        (if is_oidc_admin_api_missing e then noting e note else e)

  unfoldable pub oidc_step : KeycloakMasClients → Step
  unfolding build_oidc_request set_oidc and_after about_oidc
  oidc_step kc s =
      and_after about_oidc (set_oidc json idp http c o.oidc_provider_id (build_oidc_request o kc) s)
        (wait_for oidc o.oidc_provider_id)

  -- The metadata of Keycloak, if there is some.
  unfoldable pub metadata_step : KeycloakMasClients → Step
  unfolding set_saml_idp_metadata
  metadata_step kc s =
      let (sent, s') =
        set_saml_idp_metadata json idp http c o.saml_provider_id kc.saml_metadata s in
      if kc.saml_metadata == ""
      then some (inr tt, s)
      else some (
        elim sent [
          | inl e ↦ inl (wrapping ("setSAMLIDPConfig " <> o.saml_provider_id) e)
          | inr r ↦ inr tt
        ],
        s',
      )

  unfoldable pub saml_step : KeycloakMasClients → Step
  unfolding build_saml_sp_request set_saml_sp and_after metadata_step next
  saml_step kc s =
      and_after (wrapping ("setSAMLConfig " <> o.saml_provider_id))
        (set_saml_sp json idp http c o.saml_provider_id (build_saml_sp_request o) s)
        λ resp s'. next (metadata_step kc s') (wait_for saml o.saml_provider_id resp)

  -- A failure of the script is a warning only.
  unfoldable pub link_step : Step
  unfolding link_type link_scim_users_to_idp
  link_step s =
      let (failed, network) = link_scim_users_to_idp m o (link_type o) s.network in
      let s' : Session json http c = record s { network = network } in
      if link_type o == "" then some (inr tt, s) else some (inr tt, s')

  unfoldable pub apply_via_admin_api : KeycloakMasClients → Result String → List Certificate → Step
  unfolding self_reg_step when_configured ldap_step oidc_step saml_step link_step next
  apply_via_admin_api kc password certificates s = next (self_reg_step s) λ s1.
      next (when_configured "ldap" (ldap_step password certificates) s1) λ s2.
        next (when_configured "oidc" (oidc_step kc) s2)
          λ s3. next (when_configured "saml" (saml_step kc) s3) link_step
