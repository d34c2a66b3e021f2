-- ===== src/Tests/Requests.antt =====
-- The theorems on retries and on the token refresh, at servers that answer with an error.
use mas_iam_operator.Prelude.{
  ℕ, Bool, ◌≤◌, [], suc, if◌then◌else◌, String, ◌≡◌, refl, true, false, arith,
}
use mas_iam_operator.Errors.{ok, is_unauthorized}
use mas_iam_operator.Config.Settings.{MasConfig, default_mas}
use mas_iam_operator.Mas.Client.{MasJson, mas_client, search_users, error_from_response}
use mas_iam_operator.Bridge.Scope.{new_user_scope, candidates, filter}
use mas_iam_operator.Bridge.App.{App, run_pass, run_with_mas_refresh, backfill_pass}
use mas_iam_operator.Bridge.App.Refresh.{is_no_refusal, backfill-no_refresh}
use mas_iam_operator.Tests.Fixtures.{ascii, store, directory, resolver}
use mas_iam_operator.Http.{Http, Request, Response, answered}
use mas_iam_operator.Mas.Retry.{Attempted, do_with_retry, do_with_retry-Attempted}
use mas_iam_operator.Bridge.Backfill.{backfill, search_mas_user}
use mas_iam_operator.Bridge.Profile.{resolve}
use mas_iam_operator.Prelude.Text.{to_lower, trim_space}

abbrev unavailable : Response
unavailable = record { status_code = 503; status = "503"; body = "" }

-- It counts its requests.
abbrev busy : Http
busy = record {
  State = ℕ;
  send = λ req n. (answered unavailable, suc n);
  sleep = λ d n. n;
  int63n = λ d n. (0, n);
  join_path = λ base parts. ok base;
  check_request = λ method url. ok tt;
}

abbrev request : Request
request = record { method = "GET"; endpoint = "u"; query = []; header = []; body = "" }

do_with_retry-Attempted_example :
    (n : ℕ) × (b : Bool) × (n ≤ 4)
    × ((if b then 4 else 1) ≤ n)
    × Attempted busy request n b 0 (do_with_retry busy request 0).0 (do_with_retry busy request 0).1
do_with_retry-Attempted_example = do_with_retry-Attempted busy request 0

abbrev denied : Response
denied = record { status_code = 401; status = "401"; body = "" }

-- It refuses every token.
abbrev denying : Http
denying = record busy { send = λ req n. (answered denied, suc n) }

abbrev json : MasJson
json = record {
  encode = λ body. ok "";
  decode_id = λ text. ok text;
  decode_resources = λ text. ok [];
  decode_token = λ text. ok "token";
  basic_auth = λ name value. name;
  parse_request_uri = λ url. ok tt;
  load_cert_pool = λ path. ok tt;
}

abbrev credentials : MasConfig
credentials = record default_mas {
  base_url = "https://mas";
  api_token_name = "n";
  api_token_value = "v";
}

abbrev app : App store denying json (Unit {0})
app = record {
  cfg = credentials;
  payload_logging = false;
  executor = record {
    mas = record { cfg = credentials; base = "https://mas" };
    dry_run = false;
    allow_updates = true;
  };
  world = record { store = []; mas = 0 };
  kc = tt;
}

searches :
    (p f : String) (s : ℕ)
    → is_no_refusal ((mas_client denying json).search_users app.executor.mas p f s).0 ≡ true
unfolding search_users do_with_retry is_unauthorized error_from_response
searches p f s = ground arith

backfill-no_refresh_example :
    run_with_mas_refresh store denying json
      (Unit {0})
      (backfill_pass store denying json directory 1 (new_user_scope [] "" []) resolver)
      app
    ≡ run_pass store denying json
        (Unit {0})
        (backfill_pass store denying json directory 1 (new_user_scope [] "" []) resolver)
        app
unfolding candidates new_user_scope
backfill-no_refresh_example =
    backfill-no_refresh store denying json directory 1 (new_user_scope [] "" []) resolver app refl
      searches

-- MAS answers with status 401, and the credentials to fetch a token are there: the run ends with
-- the answer of the two searches, each sent once.
two_requests :
    (run_with_mas_refresh store denying json
      (Unit {0})
      (backfill_pass store denying json directory 1 (new_user_scope [] "" []) resolver)
      app).1.world.mas
    ≡ 2
unfolding run_with_mas_refresh backfill candidates new_user_scope filter resolve to_lower trim_space
    search_mas_user search_users do_with_retry is_unauthorized error_from_response
two_requests = refl
