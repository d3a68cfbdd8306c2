-- ===== src/Backend/Api.antt =====
-- backend/api.py: the WSGI adapter. The server gives the method in capitals, the path and the body
-- as `int` and `json` read them; an exception that the adapter does not catch leaves it.
pub mod Route
pub mod Replies
use planes.Base.{
  ℕ, ◌*◌, String, ◌==◌, Bool, true, false, not, ◌&&◌, ◌||◌, Option, none, some, List, [], ◌∷◌, leb,
  if◌then◌else◌,
}
use planes.Base.Int.{ℤ, pos, leb_ℤ}
use planes.Base.Text.{f_string}
use planes.Base.Result.{
  Error, ErrorKind, Result, ok, err, raise, validation_error, job_not_found, result_not_ready,
  ◌>>=◌,
}
use planes.Json.{Float, Json, Fields, null, str, obj, end, field, get, has}
use planes.Backend.Store.{Table}
use planes.Backend.Service.{Submission, submit_job, get_job, get_result}
use planes.Backend.Api.Route.{Target, jobs, job, result, elsewhere, route}

-- The body as `_read_body` meets it: bytes that are not UTF-8 or not JSON raise the decoder's error,
-- with its message. It is answered like a `ValidationError`, so it is one here. Any other exception of
-- `json.loads` passes, such as the plain `ValueError` of an integer of more than 4300 digits.
pub data Body : Type 0 where
  undecodable : String → Body
  decoded : Json → Body
  unreadable : Error → Body

pub record Request : Type 0 where
  pub method : String
  pub path : String
  -- `int(CONTENT_LENGTH or 0)`, if it is an integer
  pub length : Option ℤ
  pub body : Body

pub record Response : Type 0 where
  pub status : String
  pub payload : Fields
  pub location : Option String

abbrev pub max_body_bytes : ℕ
max_body_bytes = 10 * 1024 * 1024

abbrev payload_of : Body → Result Fields
payload_of (undecodable m) = raise validation_error m
payload_of (unreadable e) = err e
payload_of (decoded (obj fs)) = ok fs
payload_of (decoded _) = raise validation_error "request body must be a JSON object"

-- `_read_body`
unfoldable pub read_body : Option ℤ → Body → Result Fields
read_body none body = raise validation_error "invalid Content-Length"
read_body (some length) body =
    if leb_ℤ length (pos 0) || not (leb_ℤ length (pos max_body_bytes))
    then raise validation_error "request body must be between 1 and 10485760 bytes"
    else payload_of body

abbrev pub submission_of : Fields → Submission
submission_of payload = record {
  scenario = get "scenario" payload;
  optimization = get "optimization" payload;
  seed = get "seed" payload;
  version = if has "contract_version" payload then get "contract_version" payload else str "v0";
  job_id = get "job_id" payload;
}

abbrev pub plain : String → Fields → Response
plain status payload = record { status = status; payload = payload; location = none }

abbrev pub text_of : Json → String
text_of (str s) = s
text_of _ = ""

abbrev pub accepted : Fields → Response
accepted view = record {
  status = "202 Accepted";
  payload = view;
  location = some (f_string ("/jobs/" ∷ text_of (get "job_id" view) ∷ []));
}

-- The `except` clauses; any other exception is raised again.
unfoldable pub handle_error : Error → Result Response
handle_error e = elim e.kind [
  | ErrorKind.validation_error ↦ ok (
      plain "400 Bad Request"
        (field "error" (str "invalid_request") (field "message" (str e.message) end)))
  | ErrorKind.job_not_found ↦ ok (plain "404 Not Found" (field "error" (str "job_not_found") end))
  | ErrorKind.result_not_ready ↦ ok (
      plain "409 Conflict"
        (field "error" (str "result_not_ready") (field "state" (str e.message) end)))
  | _ ↦ err e
]

abbrev pub caught : (Fields → Response) → Result Fields → Result Response
caught f (ok view) = ok (f view)
caught f (err e) = handle_error e

abbrev pub caught_table : Result Fields × Table → Result Response × Table
caught_table (r, rows) = (caught accepted r, rows)

abbrev post_parsed : String → String → Result Fields → Table → Result Response × Table
post_parsed uuid now (ok payload) rows =
    caught_table (submit_job uuid now (submission_of payload) rows)
post_parsed uuid now (err e) rows = (handle_error e, rows)

unfoldable pub post_job : String → String → Request → Table → Result Response × Table
unfolding read_body handle_error
post_job uuid now q rows = post_parsed uuid now (read_body q.length q.body) rows

module _ (is_alnum : ℕ → Bool) (parse_float : String → Float) where
  -- What the adapter answers to any request but `POST /jobs`.
  unfoldable pub answer : Bool → Target → Table → Result Response
  unfolding handle_error
  answer true (result id) rows = caught (plain "200 OK") (get_result is_alnum parse_float id rows)
  answer true (job id) rows = caught (plain "200 OK") (get_job id rows)
  answer _ elsewhere rows = ok (plain "404 Not Found" (field "error" (str "not_found") end))
  answer _ _ rows =
      ok (plain "405 Method Not Allowed" (field "error" (str "method_not_allowed") end))

  -- `BackendAPI.__call__`
  unfoldable pub call : String → String → Request → Table → Result Response × Table
  unfolding post_job answer route
  call uuid now q rows =
      if q.method == "POST" && q.path == "/jobs"
      then post_job uuid now q rows
      else (answer (q.method == "GET") (route q.path) rows, rows)
