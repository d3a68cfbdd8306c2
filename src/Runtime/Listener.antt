-- ===== src/Runtime/Listener.antt =====
-- runtime/http_server.py: how the compute listener handles a request around the one-job lock of
-- runtime/lock.py. The process that runs the job is an argument, given the time limit in the body; so
-- are the parsed Content-Length (or nothing where `int` refuses it) and what decoding the body gives.
-- Sockets and the log on stderr are left out.
pub mod Access
pub mod Answers
use Prim.Native.Char.{code}
use Prim.Native.String
use planes.Base.{
  ℕ, suc, ◌*◌, String, Bool, true, false, not, ◌&&◌, ◌||◌, ◌==◌, Option, none, some, List, [], ◌∷◌,
  leb, ltb, eqb, if◌then◌else◌,
}
use planes.Base.Text.{strip_prefix}
use planes.Base.Int.{ℤ, pos, negsuc}
use planes.Base.Result.{Error, ErrorKind, Result, ok, err, raise, value_error, type_error, ◌>>=◌}
use planes.Json.{Float, Json, Fields, null, num, str, obj, end, field, get}
use planes.Json.Loading.{Loaded, loaded, not_json, unloaded}
use planes.Json.Numbers.{float_zero, finite, unit, to_float, is_negative}
use planes.Runtime.Contract.{ComputeResponse}
use planes.Runtime.Pipeline.{body_job_id}
use planes.Runtime.Contract.Responses.{
  Outcome, make_response, parse_response, response_to_dict, safe_job_id,
}

unfoldable pub text_length : String → ℕ
text_length String.[] = 0
text_length (String.◌∷◌ c s) = suc (text_length s)

unfoldable pub is_ascii : String → Bool
is_ascii String.[] = true
is_ascii (String.◌∷◌ c s) = ltb (code c) 128 && is_ascii s

-- `hmac.compare_digest` of two texts, which must be ASCII.
abbrev pub compare_digest : String → String → Result Bool
compare_digest a b =
    if is_ascii a && is_ascii b
    then ok (a == b)
    else raise type_error "comparing strings with non-ASCII characters is not supported"

abbrev pub check_token : String → Option String → Result Bool
check_token expected none = ok false
check_token expected (some presented) =
    if eqb (text_length presented) (text_length expected)
    then compare_digest presented expected
    else ok false

-- `_authorized`
unfoldable pub authorized : Option String → String → Result Bool
unfolding text_length is_ascii strip_prefix
authorized none expected = ok false
authorized (some header) expected =
    if expected == "" then ok false else check_token expected (strip_prefix "Bearer " header)

abbrev pub max_body_bytes : ℕ
max_body_bytes = 32 * 1024 * 1024

-- `_read_body`: the error, if there is one.
abbrev pub body_error : Option ℤ → Option String
body_error none = some "invalid_content_length"
body_error (some (negsuc n)) = some "invalid_content_length"
body_error (some (pos n)) = if ltb max_body_bytes n then some "body_too_large" else none

abbrev pub subscript : String → Json → Json
subscript key (obj fs) = get key fs
subscript key _ = null

abbrev one_second : Float
one_second = finite (pos unit)

abbrev pub limit_of : Json → Result Float
limit_of (num n) = if is_negative n then ok one_second else to_float n
limit_of _ = ok one_second

-- `_timeout_from_body`
unfoldable pub timeout_from_body : Loaded → Result Float
unfolding to_float is_negative unit
timeout_from_body not_json = ok one_second
timeout_from_body (unloaded e) = err e
timeout_from_body (loaded value) =
    limit_of (subscript "time_limit_seconds" (subscript "optimization" value))

-- How the process of one job ended: after the deadline, with an output, or with any other exception of
-- `subprocess.run`.
pub data CliEnd : Type 0 where
  expired : CliEnd
  completed : Loaded → CliEnd
  failed : Error → CliEnd

abbrev pub listener_outcome : String → Loaded → String → Outcome
listener_outcome outcome body limitation = record {
  job_id = body_job_id body;
  outcome = outcome;
  method = "runtime-listener";
  objective = "";
  runtime_seconds = float_zero;
  seed = pos 0;
  limitations = limitation ∷ [];
  log_ref = none;
  mission_plan = none;
}

abbrev pub as_json : Result ComputeResponse → Result Json
as_json response = response >>= λ r. ok (obj (response_to_dict r))

-- `_synthesized`
unfoldable pub synthesized : String → Loaded → String → Result Json
unfolding make_response response_to_dict safe_job_id
synthesized outcome (unloaded e) limitation = err e
synthesized outcome body limitation =
    as_json (make_response (listener_outcome outcome body limitation))

-- The exceptions that `_run_cli` catches around the parser.
abbrev pub is_caught : ErrorKind → Bool
is_caught value_error = true
is_caught type_error = true
is_caught _ = false

abbrev pub checked_output : Loaded → Json → Result ComputeResponse → Result Json
checked_output body output (ok r) = ok output
checked_output body output (err e) =
    if is_caught e.kind
    then synthesized "error" body "CLI stdout was not a ComputeResponse."
    else err e

abbrev pub after_cli : Loaded → CliEnd → Result Json
after_cli body expired =
    synthesized "timed_out" body "CLI did not return before the listener deadline."
after_cli body (failed e) = err e
after_cli body (completed not_json) =
    synthesized "error" body "CLI stdout was not a ComputeResponse."
after_cli body (completed (unloaded e)) =
    if is_caught e.kind
    then synthesized "error" body "CLI stdout was not a ComputeResponse."
    else err e
after_cli body (completed (loaded output)) = checked_output body output (parse_response output)

-- `_run_cli`
unfoldable pub run_cli : (Float → CliEnd) → Loaded → Result Json
unfolding synthesized parse_response timeout_from_body
run_cli cli body = do limit ← timeout_from_body body; after_cli body (cli limit)

pub record Post : Type 0 where
  pub path : String
  pub authorization : Option String
  pub content_length : Option ℤ
  pub body : Loaded

pub record Reply : Type 0 where
  pub status : ℕ
  pub payload : Json

abbrev pub refusal : ℕ → String → Reply
refusal status error = record {
  status = status;
  payload = obj (field "contract_version" (str "v0") (field "error" (str error) end));
}

-- What `_read_body` reads: nothing of an empty body.
abbrev pub read_body : Option ℤ → Loaded → Loaded
read_body (some (pos n)) body = if eqb n 0 then not_json else body
read_body _ body = not_json

-- `try_acquire`: the lock is taken if no other request holds it.
abbrev pub try_acquire : Bool → Option Bool
try_acquire held = if held then none else some true

-- `release`
abbrev pub release : Bool → Bool
release held = false

abbrev pub solved_reply : Result Json → Result Reply
solved_reply job = job >>= λ payload. ok (record { status = 200; payload = payload })

-- The job under the lock, which is released however the job ends.
abbrev pub locked : Result Json → Bool → Option Bool → Result Reply × Bool
locked job held none = (ok (refusal 503 "busy"), held)
locked job held (some taken) = (solved_reply job, release taken)

abbrev pub after_body : (Float → CliEnd) → Post → Option String → Bool → Result Reply × Bool
after_body cli q (some error) held = (ok (refusal 400 error), held)
after_body cli q none held =
    locked (run_cli cli (read_body q.content_length q.body)) held (try_acquire held)

abbrev pub after_auth : (Float → CliEnd) → Post → Result Bool → Bool → Result Reply × Bool
after_auth cli q (err e) held = (err e, held)
after_auth cli q (ok false) held = (ok (refusal 401 "unauthorized"), held)
after_auth cli q (ok true) held = after_body cli q (body_error q.content_length) held

-- `do_POST`, with whether another request holds the lock, before and after.
unfoldable pub do_post : (Float → CliEnd) → String → Post → Bool → Result Reply × Bool
unfolding authorized run_cli
do_post cli token q held =
    if q.path == "/v0/solve"
    then after_auth cli q (authorized q.authorization token) held
    else (ok (refusal 404 "not_found"), held)
