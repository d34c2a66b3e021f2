-- ===== src/Mas/Retry.antt =====
-- `doWithRetry` of services/scim-bridge/internal/mas/client.go. A request can be sent again as it
-- is: `newRequest` and `net/http` set `GetBody`, which gives the same bytes and no error.
use mas_iam_operator.Prelude.{
  ℕ, ◌≤◌, arith, inl, inr, Option-cases, zero, suc, ◌+◌, ◌*◌, Bool, true, false, ◌||◌, not, Option,
  none, some, ◌≡◌, leb, if◌then◌else◌,
}
use Prim.Native.Nat.{◌/◌}
use mas_iam_operator.Errors.{Error, message, response, Result, ok, err, Exec}
use mas_iam_operator.Http.{Request, Response, TransportError, Sent, answered, broken, Http}

-- `maxRetries` and `baseBackoff`, in nanoseconds.
abbrev pub max_retries : ℕ
max_retries = 3

abbrev pub base_backoff : ℕ
base_backoff = 200_000_000

unfoldable pub is_retryable_error : TransportError → Bool
is_retryable_error e =
    if e.deadline_exceeded
    then true
    else elim e.net_error [ some (timeout, temporary) ↦ timeout || temporary | none ↦ e.op_error ]

abbrev pub transport_failure : TransportError → Error
transport_failure e =
    response (record { status_code = 0; status = "transport error"; body = e.text })

module _ (http : Http) where
  jitter_duration : ℕ → http.State → ℕ × http.State
  jitter_duration d s =
      let (jitter, s') = http.int63n (d / 2) s in if leb d 0 then (d, s) else (d + jitter, s')

  unfoldable pub back_off : ℕ → http.State → http.State
  unfolding jitter_duration
  back_off d s = let (pause, s') = jitter_duration d s in http.sleep pause s'

  -- One round of the loop: the result of the function, or none to go on to the next round.
  unfoldable pub settle : Bool → Sent → Option (Result Response)
  unfolding is_retryable_error
  settle last (broken e) =
      if not (is_retryable_error e) || last then some (err (transport_failure e)) else none
  settle last (answered resp) =
      if leb 500 resp.status_code then (if last then some (ok resp) else none) else some (ok resp)

  -- The loop, with the number of attempts left after this one.
  unfoldable pub attempts : ℕ → ℕ → Request → http.State → Result Response × http.State
  unfolding settle back_off
  attempts zero backoff req s =
      let (sent, s') = http.send req s in
      elim (settle true sent) [ some r ↦ (r, s') | none ↦ (err (message "retries exhausted"), s') ]
  attempts (suc left) backoff req s =
      let (sent, s') = http.send req s in
      let rest = attempts left (backoff * 2) req (back_off backoff s') in
      elim (settle false sent) [ some r ↦ (r, s') | none ↦ rest ]

  unfoldable pub do_with_retry : Request → Exec http.State Response
  unfolding attempts
  do_with_retry req s = attempts max_retries base_backoff req s

  -- What a call did: how many requests went out, each but the last one worth a retry and followed
  -- by a pause, and whether the last one was given up although it was worth a retry.
  pub data Attempted (req : Request)
      : ℕ → Bool → http.State → Result Response → http.State → Type 0 where
    final :
        {s : http.State} {r : Result Response}
        → settle false (http.send req s).0 ≡ some r
        → Attempted req 1 false s r (http.send req s).1
    given_up :
        {s : http.State} {r : Result Response}
        → settle false (http.send req s).0 ≡ none
        → settle true (http.send req s).0 ≡ some r
        → Attempted req 1 true s r (http.send req s).1
    again :
        {n : ℕ} {b : Bool} {s t : http.State} {r : Result Response} (backoff : ℕ)
        → settle false (http.send req s).0 ≡ none
        → Attempted req n b (back_off backoff (http.send req s).1) r t
        → Attempted req (suc n) b s r t

  settle_last :
      (sent : Sent) (r : Result Response) → settle false sent ≡ some r → settle true sent ≡ some r
  unfolding settle
  settle_last (broken e) r h = ground (arith, h)
  settle_last (answered resp) r h = ground (arith, h)

  settle-none : (sent : Sent) → ¬ (settle true sent ≡ none)
  unfolding settle
  settle-none (broken e) h = ground (arith, h)
  settle-none (answered resp) h = ground (arith, h)

  attempts_last :
      (backoff : ℕ) (req : Request) (s : http.State)
      → (b : Bool) × Attempted req 1 b s (attempts 0 backoff req s).0 (attempts 0 backoff req s).1
  unfolding attempts
  attempts_last backoff req s = elim (Option-cases (settle false (http.send req s).0)) [
    | inr (r, e) ↦ (false, rw (settle_last (http.send req s).0 r e, attempts) (final e))
    | inl n ↦ elim (Option-cases (settle true (http.send req s).0)) [
      | inl e ↦ absurd (settle-none (http.send req s).0 e)
      | inr (r, e) ↦ (true, rw (e, attempts) (given_up n e))
    ]
  ]

  attempts-Attempted :
      (left backoff : ℕ) (req : Request) (s : http.State)
      → (n : ℕ) × (b : Bool) × (n ≤ suc left)
        × ((if b then suc left else 1) ≤ n)
        × Attempted req n b s (attempts left backoff req s).0 (attempts left backoff req s).1
  unfolding attempts
  attempts-Attempted zero backoff req s =
      let (b, run) = attempts_last backoff req s in (1, b, omega arith, ground arith, run)
  attempts-Attempted (suc left) backoff req s =
      elim (Option-cases (settle false (http.send req s).0)) [
        | inl e ↦
            let (n, b, bound, full, rest) =
              attempts-Attempted left (backoff * 2) req (back_off backoff (http.send req s).1) in
            (suc n, b, omega arith, ground (arith, full), rw (e, attempts) (again backoff e rest))
        | inr (r, e) ↦ (1, false, omega arith, ground arith, rw (e, attempts) (final e))
      ]

  -- `doWithRetry` ends after at most four requests, with what the last of them gave. Each request
  -- before it was worth a retry and a pause followed it; one that is worth a retry is given up only
  -- as the fourth.
  pub do_with_retry-Attempted :
      (req : Request) (s : http.State)
      → (n : ℕ) × (b : Bool) × (n ≤ 4)
        × ((if b then 4 else 1) ≤ n)
        × Attempted req n b s (do_with_retry req s).0 (do_with_retry req s).1
  unfolding do_with_retry
  do_with_retry-Attempted req s = attempts-Attempted 3 base_backoff req s
