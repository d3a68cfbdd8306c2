-- ===== src/Runtime/Placeholder.antt =====
-- runtime/placeholder.py: the stand-in for the solver's process. Its input and its
-- output are what decoding them gives; stderr is left out.
pub mod Runs
use planes.Base.{String, ◌==◌, Option, none, some, List, [], ◌∷◌, contains, if◌then◌else◌}
use planes.Base.Int.{ℤ, pos}
use planes.Base.Result.{Result, ok, err, raise, ◌>>=◌}
use planes.Json.{int, Json, Fields, num, str, obj, end, field}
use planes.Json.Loading.{Loaded, loaded, not_json}
use planes.Json.Numbers.{float_zero}
use planes.Runtime.Contract.{ComputeRequest, ComputeResponse, parse_request_bytes}
use planes.Runtime.Contract.Responses.{Outcome, make_response, response_to_dict}
use planes.Runtime.Pipeline.{is_value_error}

-- What becomes of the process: it sleeps and ignores SIGTERM, or `main` returns a status.
pub data Halt : Type 0 where
  asleep : Halt
  returned : ℤ → Loaded → Halt

abbrev pub placeholder_outcomes : List String
placeholder_outcomes = "feasible" ∷ "infeasible" ∷ "crash" ∷ "invalid" ∷ "sleep" ∷ []

-- `request.optimization.placeholder_outcome or "feasible"`
abbrev pub mode_of : Option String → String
mode_of none = "feasible"
mode_of (some s) = if s == "" then "feasible" else s

abbrev pub placeholder_mission : ComputeRequest → Fields
placeholder_mission request =
    field "kind" (str "placeholder")
      (field "job_id" (str request.job_id) (field "seed" (num (int request.seed)) end))

abbrev pub placeholder_limitation : String
placeholder_limitation =
    "Placeholder core is not an optimization result and is not globally optimal."

abbrev pub placeholder_response : ComputeRequest → String → Outcome
placeholder_response request mode = record {
  job_id = request.job_id;
  outcome = mode;
  method = "placeholder";
  objective = request.optimization.objective;
  runtime_seconds = float_zero;
  seed = request.seed;
  limitations = placeholder_limitation ∷ [];
  log_ref = none;
  mission_plan = if mode == "feasible" then some (placeholder_mission request) else none;
}

abbrev pub write_response : ComputeResponse → Halt
write_response response = returned (pos 0) (loaded (obj (response_to_dict response)))

abbrev pub in_mode : ComputeRequest → String → Result Halt
in_mode request mode =
    if contains mode placeholder_outcomes
    then if mode == "sleep"
      then ok asleep
      else if mode == "crash"
      then ok (returned (pos 3) not_json)
      else if mode == "invalid"
      then ok (returned (pos 0) not_json)
      else (do
        response ← make_response (placeholder_response request mode)
        ok (write_response response))
    else ok (returned (pos 2) not_json)

abbrev pub after_read : Result ComputeRequest → Result Halt
after_read (ok request) = in_mode request (mode_of request.optimization.placeholder_outcome)
after_read (err e) = if is_value_error e.kind then ok (returned (pos 2) not_json) else err e

-- `main`
unfoldable pub main : Loaded → Result Halt
unfolding make_response response_to_dict
main raw = after_read (parse_request_bytes raw)
