-- ===== src/Config/Validate/Sound.antt =====
-- What a valid configuration has: `Validate` in services/scim-bridge/internal/config/config.go.
use mas_iam_operator.Prelude.{
  String, ◌≡◌, refl, inl, inr, Bool, true, false, not, ◌&&◌, ◌||◌, Option, none, some, List, [],
  ◌∷◌, ◌++◌, arith, ◌==◌, if◌then◌else◌, is_nil, has,
}
use mas_iam_operator.Errors.{Error, Result, Result-cases}
use mas_iam_operator.Prelude.Text.{CaseTable, to_lower}
use mas_iam_operator.Config.Settings.{Settings}
use mas_iam_operator.Config.Validate.{validate, problems, problem, check_names, check_urls}

-- The credentials: a token, or the two parts by which one can be fetched.
abbrev pub has_credentials : Settings → Bool
has_credentials s =
    not (s.mas.token == "")
    || (not (s.mas.api_token_name == "") && not (s.mas.api_token_value == ""))

abbrev missing_credentials : Settings → Bool
missing_credentials s =
    (s.mas.token == "") && ((s.mas.api_token_name == "") || (s.mas.api_token_value == ""))

is_nil-append_left :
    (xs ys : List String) → is_nil (xs ++ ys) ≡ true → (is_nil xs ≡ true) × (is_nil ys ≡ true)
is_nil-append_left [] ys h = (refl, h)
is_nil-append_left (x ∷ xs) ys h = cc

is_nil-problem : (b : Bool) (text : String) → is_nil (problem b text) ≡ true → b ≡ false
is_nil-problem true text h = cc
is_nil-problem false text h = refl

no_problems :
    (s : Settings)
    → is_nil (problems s) ≡ true
    → ((s.keycloak.base_url == "") ≡ false)
      × ((s.mas.base_url == "") ≡ false)
      × ((s.mas.profile_id == "") ≡ false)
      × (has_credentials s ≡ true)
unfolding problems
no_problems s h =
    let (url, h₁) = is_nil-append_left (problem (s.keycloak.base_url == "") _) _ h in
    let (id, h₂) = is_nil-append_left (problem (s.keycloak.client_id == "") _) _ h₁ in
    let (secret, h₃) = is_nil-append_left (problem (s.keycloak.client_secret == "") _) _ h₂ in
    let (mas_url, h₄) = is_nil-append_left (problem (s.mas.base_url == "") _) _ h₃ in
    let (profile, h₅) = is_nil-append_left (problem (s.mas.profile_id == "") _) _ h₄ in
    let (token, h₆) = is_nil-append_left (problem (missing_credentials s) _) _ h₅ in
    let missing = is_nil-problem (missing_credentials s) _ token in
    (
      is_nil-problem _ _ url,
      is_nil-problem _ _ mas_url,
      is_nil-problem _ _ profile,
      ground (arith, missing),
    )

abbrev pub modes : List String
modes = "poll" ∷ "hybrid" ∷ "run-once" ∷ "backfill" ∷ []

abbrev backends : List String
backends = "memory" ∷ "filesystem" ∷ "postgresql" ∷ []

abbrev levels : List String
levels = "debug" ∷ "info" ∷ "warn" ∷ "error" ∷ []

-- A test that found nothing.
passed :
    (b : Bool) (e : Error) (rest : Option Error)
    → (if b then some e else rest) ≡ none
    → (b ≡ false) × (rest ≡ none)
passed true e rest h = cc
passed false e rest h = (refl, h)

module _ ⦃c : CaseTable⦄ (parse_request_uri : String → Result (Unit {0})) (s : Settings) where
  no_wrong_name :
      check_names parse_request_uri s ≡ none
      → (has s.bridge.mode modes ≡ true)
        × (((s.bridge.state_backend == "filesystem") && (s.bridge.state_path == "")) ≡ false)
  unfolding check_names
  no_wrong_name h =
      let (auth, h₁) =
        passed (not (has (to_lower s.mas.auth_type) ("api-key" ∷ "jwt" ∷ []))) _ _ h in
      let (mode, h₂) = passed (not (has s.bridge.mode modes)) _ _ h₁ in
      let (backend, h₃) = passed (not (has s.bridge.state_backend backends)) _ _ h₂ in
      let (level, h₄) = passed (not (has s.bridge.log_level levels)) _ _ h₃ in
      let (path, h₅) =
        passed ((s.bridge.state_backend == "filesystem") && (s.bridge.state_path == "")) _ _ h₄ in
      (ground (arith, mode), path)

  validate-check_names :
      validate parse_request_uri s ≡ none
      → (is_nil (problems s) ≡ true) × (check_names parse_request_uri s ≡ none)
  unfolding validate check_urls
  validate-check_names h =
      let (n, rest) = passed (not (is_nil (problems s))) _ _ h in
      (
        ground (arith, n),
        elim (Result-cases (parse_request_uri s.keycloak.base_url)) [
          | inr (x, q) ↦ absurd (ground (arith, q, rest))
          | inl (a, q) ↦ elim (Result-cases (parse_request_uri s.mas.base_url)) [
            | inr (x, r) ↦ absurd (ground (arith, q, r, rest))
            | inl (b, r) ↦ rw (q, r, check_urls) at rest
          ]
        ],
      )

  -- If the validation finds nothing, then the addresses of Keycloak and MAS and the default profile
  -- are set, MAS has credentials, the mode is one of the four, and a filesystem store has a path.
  pub validate-eq-none :
      validate parse_request_uri s ≡ none
      → ((s.keycloak.base_url == "") ≡ false)
        × ((s.mas.base_url == "") ≡ false)
        × ((s.mas.profile_id == "") ≡ false)
        × (has_credentials s ≡ true)
        × (has s.bridge.mode modes ≡ true)
        × (((s.bridge.state_backend == "filesystem") && (s.bridge.state_path == "")) ≡ false)
  validate-eq-none h =
      let (n, names) = validate-check_names h in
      let (url, mas_url, profile, credentials) = no_problems s n in
      let (mode, path) = no_wrong_name names in (url, mas_url, profile, credentials, mode, path)
