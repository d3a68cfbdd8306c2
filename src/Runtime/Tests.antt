-- ===== src/Runtime/Tests.antt =====
-- Concrete requests and responses of the runtime, on which the theorems are applied.
mod Boards
mod Clients
use planes.Base.{
  Option, true, false, ◌↔◌, String, ◌≡◌, refl, ◌⊎◌, none, some, List, [], ◌∷◌, contains,
}
use planes.Base.Int.{ℤ, pos}
use planes.Base.Result.{Error, Result, ok, err, type_error}
use planes.Json.{Float, int, nan, Json, Fields, str, arr, obj, nil, end, field}
use planes.Json.Numbers.{float_zero}
use planes.Runtime.Contract.{ComputeRequest, parse_request_bytes, parse_request, request_to_dict}
use planes.Runtime.Contract.Limitations.{
  unique_limitations, first_copies, Distinct, unique_limitations_lem,
}
use planes.Runtime.Contract.Responses.{
  Outcome, made, make_response, parse_response, response_to_dict,
}
use planes.Runtime.Contract.RoundTrip.{IsRequest, parse_request-print}
use planes.Runtime.Contract.Replies.{IsResponse, parse_response-print, make_response-print}
use planes.Runtime.Contract.Errors.{Refused, parse_response_errors}
use planes.Json.Loading.{loaded}
use planes.Runtime.Pipeline.{Problem, Solved, solution, run}
use planes.Runtime.Runner.{Ended, exited, execute}
use planes.Runtime.Runner.Outcomes.{Ends, execute-Ends}
use planes.Runtime.Listener.{authorized, CliEnd, expired, Post, Reply, listener_outcome, do_post}
use planes.Runtime.Listener.Access.{Bears, authorized_iff}
use planes.Runtime.Listener.Answers.{IsSolved, do_post-IsSolved, do_post-lock}
use planes.Runtime.Pipeline.Answers.{Unread, Answers, LimitOverflows, run-Answers}

abbrev request : ComputeRequest
request = record {
  contract_version = "v0";
  job_id = "job-1";
  scenario = field "boards" (arr nil) end;
  optimization = record {
    objective = "min_time";
    time_limit_seconds = int (pos 60);
    placeholder_outcome = none;
  };
  seed = pos 7;
}

abbrev request_json : Json
request_json = obj (request_to_dict request)

request_parsed : parse_request request_json ≡ ok request
unfolding parse_request request_to_dict
request_parsed = refl

parse_request-print_example :
    IsRequest request × (parse_request (obj (request_to_dict request)) ≡ ok request)
parse_request-print_example = parse_request-print request_json request request_parsed

abbrev outcome : Outcome
outcome = record {
  job_id = "../etc";
  outcome = "infeasible";
  method = "runtime-pipeline";
  objective = "min_time";
  runtime_seconds = nan;
  seed = pos 7;
  limitations = "no swaths" ∷ "too far" ∷ "no swaths" ∷ [];
  log_ref = some "/var/log/planes/job-1.log";
  mission_plan = none;
}

outcome_made : make_response outcome ≡ ok (made outcome)
unfolding make_response
outcome_made = refl

make_response-print_example :
    IsResponse (made outcome)
    × (parse_response (obj (response_to_dict (made outcome))) ≡ ok (made outcome))
make_response-print_example = make_response-print outcome (made outcome) refl outcome_made

parse_response-print_example :
    IsResponse (made outcome)
    × (parse_response (obj (response_to_dict (made outcome))) ≡ ok (made outcome))
parse_response-print_example =
    parse_response-print (obj (response_to_dict (made outcome))) (made outcome)
      (make_response-print outcome (made outcome) refl outcome_made).1

-- A response whose outcome is a list.
abbrev listed : Json
listed = obj (
    field "contract_version" (str "v0")
      (field "job_id" (str "job-1") (field "outcome" (arr nil) end)))

abbrev unhashable : Error
unhashable = record { kind = type_error; message = "unhashable type: 'list'" }

listed_raises : parse_response listed ≡ err unhashable
unfolding parse_response
listed_raises = refl

parse_response_errors_example : Refused listed unhashable
parse_response_errors_example = parse_response_errors listed unhashable listed_raises

-- A solver that plans, under a clock that shows nothing.
abbrev plan : Problem → Float → Result Solved
plan problem deadline = ok (
    solution (record {
      mission_plan = obj (field "routes" (arr nil) end);
      method = "fields2cover";
      objective_value = float_zero;
      limitations = [];
    }))

abbrev no_lines : Fields → List String → List String
no_lines scenario limitations = []

run-Answers_example :
    Answers (run plan no_lines (λ t. t) float_zero (loaded request_json))
    ⊎ (LimitOverflows plan no_lines (λ t. t) float_zero (loaded request_json)
        ⊎ Unread
            (loaded request_json)
            (run plan no_lines (λ t. t) float_zero (loaded request_json)))
run-Answers_example = run-Answers plan no_lines (λ t. t) float_zero (loaded request_json)

-- A process that writes a response with a list for its outcome.
abbrev confused : ComputeRequest → Float → Ended
confused r timeout = exited (pos 0) (loaded listed) float_zero

abbrev log_path : String → String
log_path job_id = "/var/log/planes/job.log"

abbrev status_text : ℤ → String
status_text status = "1"

execute-Ends_example :
    Ends log_path status_text confused float_zero
      (loaded request_json)
      (execute log_path status_text confused float_zero (loaded request_json))
execute-Ends_example = execute-Ends log_path status_text confused float_zero (loaded request_json)

abbrev header : Option String
header = some "Bearer secret"

header_authorized : authorized header "secret" ≡ ok true
unfolding authorized
header_authorized = refl

authorized_iff_example : (authorized header "secret" ≡ ok true) ↔ Bears header "secret"
authorized_iff_example = authorized_iff header "secret"

-- A request whose job does not end in time.
abbrev late : Float → CliEnd
late limit = expired

abbrev post : Post
post = record {
  path = "/v0/solve";
  authorization = header;
  content_length = some (pos 400);
  body = loaded request_json;
}

abbrev late_reply : Reply
late_reply = record {
  status = 200;
  payload = obj (
      response_to_dict (
        made (
          listener_outcome "timed_out" (loaded request_json)
            "CLI did not return before the listener deadline.")));
}

job_expired : (do_post late "secret" post false).0 ≡ ok late_reply
unfolding do_post request_to_dict
job_expired = refl

do_post-IsSolved_example : IsSolved "secret" post false late_reply
do_post-IsSolved_example = do_post-IsSolved late "secret" post false late_reply job_expired refl

do_post-lock_example : (do_post late "secret" post false).1 ≡ false
do_post-lock_example = do_post-lock late "secret" post false
