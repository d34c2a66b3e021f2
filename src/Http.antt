-- ===== src/Http.antt =====
-- What the two API clients use of Go's packages `net/http`, `net/url`, `time` and `math/rand`.
use Prim.Native.Char.{len_utf8}
use mas_iam_operator.Prelude.{ℕ, ◌-◌, String, Bool, List, Option, leb, if◌then◌else◌}
use mas_iam_operator.Prelude.Dict.{Dict}
use mas_iam_operator.Errors.{Result}
use Prim.Native.String as S

pub record Request : Type 0 where
  pub method : String
  pub endpoint : String
  pub query : Dict String
  pub header : Dict String
  pub body : String

pub record Response : Type 0 where
  pub status_code : ℕ
  pub status : String
  pub body : String

-- An error of `http.Client.Do`: its text, `errors.Is(err, context.DeadlineExceeded)`, the
-- `Timeout()` and `Temporary()` of a `net.Error` in its chain, and whether a `*net.OpError` is.
pub record TransportError : Type 0 where
  pub text : String
  pub deadline_exceeded : Bool
  pub net_error : Option (Bool × Bool)
  pub op_error : Bool

pub data Sent : Type 0 where
  answered : Response → Sent
  broken : TransportError → Sent

-- The network and the clock. `join_path` is `url.JoinPath`; `check_request` is the error of
-- `http.NewRequestWithContext`.
pub record Http : Type 1 where
  pub State : Type 0
  pub send : Request → State → Sent × State
  pub sleep : ℕ → State → State
  pub int63n : ℕ → State → ℕ × State
  pub join_path : String → List String → Result String
  pub check_request : String → String → Result (Unit {0})

-- `io.LimitReader`: at most so many bytes. A character that the limit would cut is left out.
unfoldable pub limit_bytes : ℕ → String → String
limit_bytes n S.[] = S.[]
limit_bytes n (S.◌∷◌ c s) =
    let rest = limit_bytes (n - len_utf8 c) s in if leb (len_utf8 c) n then S.◌∷◌ c rest else S.[]
