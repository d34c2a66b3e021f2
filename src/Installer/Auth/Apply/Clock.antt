-- ===== src/Installer/Auth/Apply/Clock.antt =====
-- The clock during the requests of tools/mas-iam-installer/internal/masadmin/client.go.
use mas_iam_operator.Prelude.{
  ℕ, ◌≤◌, String, inl, inr, ◌≡◌, refl, Option, none, some, List, [], ◌∷◌, arith,
}
use mas_iam_operator.Errors.{Result, ok, err}
use mas_iam_operator.Http.{Request, Http}
use mas_iam_operator.Installer.Admin.Types.{Fallible}
use mas_iam_operator.Installer.Admin.Client.{AdminJson, Client}
use mas_iam_operator.Installer.Admin.Session.{
  Session, Call, Out, and_then, auth_request, cache_token, mint, authenticate, reset_token,
  new_request, round, attempts, do_with_retry, json_request, do_json,
}

module _ (json : AdminJson) (http : Http) (c : Client) (now : http.State → ℕ)
    (steady : (req : Request) (n : http.State) → now n ≤ now (http.send req n).1) where
  -- The clock does not go back during the call.
  abbrev pub IsSteady {ℓ} : {A : Type ℓ} → Call json http c A → Type 0
  IsSteady call = (s : Session json http c) → now s.network ≤ now (call s).1.network

  cache_token-network :
      (r : Fallible String) (n : http.State) (s : Session json http c)
      → (cache_token json http c r n s).1.network ≡ n
  unfolding cache_token
  cache_token-network (inl e) n s = refl
  cache_token-network (inr token) n s = refl

  mint-IsSteady : IsSteady (mint json http c)
  unfolding mint cache_token
  mint-IsSteady s = ground (arith, steady (auth_request json http c) s.network)

  authenticate-IsSteady : IsSteady (authenticate json http c)
  unfolding authenticate
  authenticate-IsSteady s = ground (arith, mint-IsSteady s)

  and_then-steady {ℓ κ} :
      {A : Type ℓ} {B : Type κ} (s : Session json http c) (r : Fallible A × Session json http c)
      (f : A → Call json http c B)
      → now s.network ≤ now r.1.network
      → ((a : A) → IsSteady (f a))
      → now s.network ≤ now (and_then json http c r f).1.network
  and_then-steady s (inl e, s') f h k = h
  and_then-steady s (inr a, s') f h k = let e = k a s' in ground arith

  new_request-IsSteady :
      (method path body : String) (header : List (String × String))
      → IsSteady (new_request json http c method path body header)
  unfolding new_request
  new_request-IsSteady method path body header s = let e = authenticate-IsSteady s in ground arith

  json_request-IsSteady :
      (method path : String) (body : Option (Result String))
      → IsSteady (json_request json http c method path body)
  unfolding json_request
  json_request-IsSteady method path none s = new_request-IsSteady method path "" _ s
  json_request-IsSteady method path (some (err e)) s = ground arith
  json_request-IsSteady method path (some (ok raw)) s = new_request-IsSteady method path raw _ s

  module _ {ℓ} {A : Type ℓ} (path : String) (out : Out A) where
    round-IsSteady :
        (attempt : ℕ) (again : Call json http c (Option A)) (req : Request)
        → IsSteady again
        → IsSteady (round json http c attempt path out again req)
    unfolding round reset_token
    round-IsSteady attempt again req h s =
        let e = steady req s.network in
        let k = h (reset_token json http c (record s { network = (http.send req s.network).1 })) in
        ground arith

    attempts-IsSteady :
        (ns : List ℕ) (build : Call json http c Request)
        → IsSteady build
        → IsSteady (attempts json http c ns build path out)
    unfolding attempts
    attempts-IsSteady [] build h s = ground arith
    attempts-IsSteady (n ∷ ns) build h s =
        and_then-steady s (build s)
          (round json http c n path out (attempts json http c ns build path out)) (h s)
          λ req.
            round-IsSteady n (attempts json http c ns build path out) req
              (attempts-IsSteady ns build h)

    pub do_json-IsSteady :
        (method : String) (body : Option (Result String))
        → IsSteady (do_json json http c method path body out)
    unfolding do_json do_with_retry
    do_json-IsSteady method body =
        attempts-IsSteady (0 ∷ 1 ∷ []) (json_request json http c method path body)
          (json_request-IsSteady method path body)
