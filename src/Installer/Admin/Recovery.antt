-- ===== src/Installer/Admin/Recovery.antt =====
-- An expired token in the requests of tools/mas-iam-installer/internal/masadmin/client.go.
use mas_iam_operator.Prelude.{
  ℕ, String, ◌≡◌, refl, ap, ◌∙◌, inl, inr, true, false, ◌&&◌, Option, some, List, [], ◌∷◌, arith,
  ◌==◌, eq_iff, eq_refl, nat_beq, if◌then◌else◌, Bool-cases,
}
use mas_iam_operator.Errors.{Result, ok}
use mas_iam_operator.Http.{Request, Response, answered, Http}
use mas_iam_operator.Installer.Admin.Types.{Fallible}
use mas_iam_operator.Installer.Admin.Client.{AdminJson, Client, is_success}
use mas_iam_operator.Installer.Admin.Session.{
  Session, Call, Out, and_then, auth_url, auth_request, token_of, mint, authenticate, reset_token,
  with_token, new_request, settle, round, attempts, do_with_retry, json_request, do_json,
}

module _ (json : AdminJson) (http : Http) (c : Client) where
  abbrev pub header_of : List (String × String)
  header_of = ("Content-Type", "application/json") ∷ ("Accept", "application/json") ∷ []

  -- A server that grants the token to the credentials of the client, and answers the request of
  -- the token as given and that of any other one by 401.
  pub record IsServing (token method path raw : String) (resp refusal minted : Response)
      : Type 0 where
    pub permitted : (m url : String) → http.check_request m url ≡ ok tt
    pub grants : (n : http.State) → (http.send (auth_request json http c) n).0 ≡ answered minted
    pub granted : token_of json http c minted ≡ inr token
    pub answers :
        (t : String) (n : http.State)
        → (http.send (with_token json http c method path raw header_of t) n).0
          ≡ answered (if t == token then resp else refusal)
    pub refused : refusal.status_code ≡ 401
    pub succeeded : is_success resp.status_code ≡ true
    pub content : (resp.body == "") ≡ false

  module _ {ℓ} {A : Type ℓ} (build : Call json http c Request) (path : String) (out : Out A)
      (req : Request) (s s' : Session json http c) (built : build s ≡ (inr req, s'))
      (resp : Response) (sent : (http.send req s'.network).0 ≡ answered resp) (attempt : ℕ)
      (rest : List ℕ) where
    abbrev sent_session : Session json http c
    sent_session = record s' { network = (http.send req s'.network).1 }

    to_round :
        attempts json http c (attempt ∷ rest) build path out s
        ≡ round json http c attempt path out (attempts json http c rest build path out) req s'
    unfolding attempts
    to_round =
        ap
          (λ r.
            and_then json http c r
              (round json http c attempt path out (attempts json http c rest build path out)))
          built

    attempts_settled :
        (nat_beq resp.status_code 401 && nat_beq attempt 0) ≡ false
        → attempts json http c (attempt ∷ rest) build path out s
          ≡ (settle json http c req path out resp, sent_session)
    unfolding round settle
    attempts_settled h = to_round ∙ rw (round, sent, h) refl

    attempts_repeated :
        (nat_beq resp.status_code 401 && nat_beq attempt 0) ≡ true
        → attempts json http c (attempt ∷ rest) build path out s
          ≡ attempts json http c rest build path out (reset_token json http c sent_session)
    unfolding round attempts
    attempts_repeated h = to_round ∙ rw (round, sent, h) refl

  module _ {ℓ} {A : Type ℓ} (token method path raw : String) (resp refusal minted : Response)
      (serving : IsServing token method path raw resp refusal minted) (decode : String → Result A)
      (value : A) (decoded : decode resp.body ≡ ok value) where
    mint_grants :
        (s : Session json http c)
        → ((mint json http c s).0 ≡ inr token) × ((mint json http c s).1.cached_jwt ≡ token)
    unfolding mint
    mint_grants s =
        rw
          (
            mint,
            serving.permitted "GET" (auth_url json http c),
            serving.grants s.network,
            serving.granted,
          )
          (refl, refl)

    settle_value :
        (req : Request) → settle json http c req path (some decode) resp ≡ inr (some value)
    unfolding settle
    settle_value req = rw (serving.succeeded, serving.content, decoded) refl

    target : Call json http c Request
    unfolding json_request
    target = json_request json http c method path (some (ok raw))

    -- The request is built with the cached token, or with a fresh one when there is none.
    target_cached :
        (s : Session json http c)
        → (s.cached_jwt == "") ≡ false
        → target s ≡ (inr (with_token json http c method path raw header_of s.cached_jwt), s)
    unfolding target json_request new_request authenticate
    target_cached s h =
        rw (new_request, serving.permitted method (json.resolve c.base_url path), authenticate, h)
          refl

    mint_pair : (s : Session json http c) → mint json http c s ≡ (inr token, (mint json http c s).1)
    mint_pair s = ap (λ r. (r, (mint json http c s).1)) (mint_grants s).0

    target_minted :
        (s : Session json http c)
        → (s.cached_jwt == "") ≡ true
        → ((target s).0 ≡ inr (with_token json http c method path raw header_of token))
          × ((target s).1.cached_jwt ≡ token)
    unfolding target json_request new_request authenticate
    target_minted s h =
        rw
          (
            new_request,
            serving.permitted method (json.resolve c.base_url path),
            authenticate,
            h,
            mint_pair s,
          )
          (refl, (mint_grants s).1)

    is_answer : (attempt : ℕ) → (nat_beq resp.status_code 401 && nat_beq attempt 0) ≡ false
    is_answer attempt = ground (arith, serving.succeeded)

    Recovered : Fallible (Option A) × Session json http c → Type ℓ
    Recovered (r, s) = (r ≡ inr (some value)) × (s.cached_jwt ≡ token)

    -- A round whose request carries the right token ends with the value.
    round_granted :
        (attempt : ℕ) (rest : List ℕ) (s s' : Session json http c)
        → target s ≡ (inr (with_token json http c method path raw header_of token), s')
        → s'.cached_jwt ≡ token
        → Recovered (attempts json http c (attempt ∷ rest) target path (some decode) s)
    unfolding Recovered
    round_granted attempt rest s s' built kept =
        rw
          (attempts_settled target path (some decode) _ s s' built resp
            (serving.answers token s'.network ∙ rw (eq_refl token) refl) attempt rest
            (is_answer attempt))
          (settle_value _, kept)

    round_minted :
        (attempt : ℕ) (rest : List ℕ) (s : Session json http c)
        → (s.cached_jwt == "") ≡ true
        → Recovered (attempts json http c (attempt ∷ rest) target path (some decode) s)
    round_minted attempt rest s h =
        let (built, kept) = target_minted s h in
        round_granted attempt rest s (target s).1 (ap (λ r. (r, (target s).1)) built) kept

    round_cached :
        (s : Session json http c)
        → (s.cached_jwt == "") ≡ false
        → Recovered (attempts json http c (0 ∷ 1 ∷ []) target path (some decode) s)
    unfolding reset_token
    round_cached s h = elim (Bool-cases (s.cached_jwt == token)) [
      | inl e ↦
          round_granted 0 (1 ∷ []) s s
            (rw (target_cached s h, (eq_iff s.cached_jwt token).0 e) refl)
            ((eq_iff s.cached_jwt token).0 e)
      | inr e ↦
          rw
            (attempts_repeated target path (some decode) _ s s (target_cached s h) refusal
              (serving.answers s.cached_jwt s.network ∙ rw e refl) 0 (1 ∷ [])
              (rw serving.refused refl))
            (round_minted 1 [] _ refl)
    ]

    -- Whatever token is cached, none, a valid or an expired one, the call ends with the value of the
    -- server's answer, and with the valid token in the cache.
    pub do_json_recovers :
        (s : Session json http c)
        → ((do_json json http c method path (some (ok raw)) (some decode) s).0 ≡ inr (some value))
          × ((do_json json http c method path (some (ok raw)) (some decode) s).1.cached_jwt ≡ token)
    unfolding do_json do_with_retry target Recovered
    do_json_recovers s = elim (Bool-cases (s.cached_jwt == "")) [
      | inl e ↦ round_minted 0 (1 ∷ []) s e
      | inr e ↦ round_cached s e
    ]
