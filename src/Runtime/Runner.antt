-- ===== src/Runtime/Runner.antt =====
-- runtime/runner.py: one solver process and what becomes of it. The process is an argument: given the
-- request and the timeout, it says how the process ended, with what decoding its standard output gave,
-- or what else starting it or waiting for it raised. So are the path of the job's log file and the
-- text of an exit status.
pub mod Outcomes
use planes.Base.{
  eqb, String, Bool, true, false, not, ◌&&◌, ◌==◌, Option, none, some, List, [], ◌∷◌, contains,
  if◌then◌else◌,
}
use planes.Base.Int.{ℤ, pos}
use planes.Base.Text.{f_string}
use planes.Base.Result.{Error, Result, ok, err, raise, type_error, ◌>>=◌}
use planes.Json.{Float, Json, Fields, null, str, arr, obj, get, is_text}
use planes.Json.Loading.{Loaded, loaded, not_json, unloaded}
use planes.Json.Numbers.{isfinite, float_leb, float_zero}
use planes.Runtime.Contract.{
  ComputeRequest, ComputeResponse, contract_version, outcomes, parse_request,
}
use planes.Runtime.Contract.Responses.{Outcome, make_response, safe_job_id, texts_of_items}
use planes.Runtime.Pipeline.{is_value_error}

-- How the process ended, and after how long; or an exception that is not caught, of `Popen`, of
-- encoding the input or of `communicate`, as the `OverflowError` of a timeout that is too large for
-- the clock.
pub data Ended : Type 0 where
  terminated : Float → Ended
  exited : ℤ → Loaded → Float → Ended
  raised : Error → Ended

-- What `_accept_solver_stdout` takes from the output.
pub record Accepted : Type 0 where
  pub outcome : String
  pub method : String
  pub mission : Option Fields
  pub limitations : List String

-- `outcome in OUTCOMES`, which raises on a list or a dict.
abbrev pub known_outcome : Json → Result (Option String)
known_outcome (str s) = ok (if contains s outcomes then some s else none)
known_outcome (arr _) = raise type_error "unhashable type: 'list'"
known_outcome (obj _) = raise type_error "unhashable type: 'dict'"
known_outcome _ = ok none

abbrev pub plan_of : Json → Option (Option Fields)
plan_of null = some none
plan_of (obj plan) = some (some plan)
plan_of _ = none

abbrev pub accepted_mission : String → Json → Option (Option Fields)
accepted_mission outcome value = if outcome == "feasible" then plan_of value else some none

abbrev pub accepted_limitations : Json → Option (List String)
accepted_limitations (arr xs) = texts_of_items xs
accepted_limitations _ = none

abbrev pub with_mission : String → String → List String → Option (Option Fields) → Option Accepted
with_mission outcome method limitations none = none
with_mission outcome method limitations (some mission) =
    some
      (record { outcome = outcome; method = method; mission = mission; limitations = limitations })

abbrev pub with_limitations : Fields → String → String → Option (List String) → Option Accepted
with_limitations body outcome method none = none
with_limitations body outcome method (some limitations) =
    with_mission outcome method limitations (accepted_mission outcome (get "mission_plan" body))

abbrev pub with_method : Fields → String → Fields → Json → Option Accepted
with_method body outcome report (str method) =
    if method == ""
    then none
    else with_limitations body outcome method (accepted_limitations (get "limitations" report))
with_method body outcome report _ = none

abbrev pub with_report : Fields → String → Json → Option Accepted
with_report body outcome (obj report) = with_method body outcome report (get "method" report)
with_report body outcome _ = none

abbrev pub with_outcome : Fields → Option String → Option Accepted
with_outcome body none = none
with_outcome body (some outcome) = with_report body outcome (get "solver_report" body)

-- `_accept_solver_stdout`
unfoldable pub accept_solver_stdout : Loaded → ComputeRequest → Result (Option Accepted)
accept_solver_stdout (unloaded e) request = err e
accept_solver_stdout (loaded (obj body)) request =
    if is_text contract_version (get "contract_version" body)
      && is_text request.job_id (get "job_id" body)
    then (do outcome ← known_outcome (get "outcome" body); ok (with_outcome body outcome))
    else ok none
accept_solver_stdout _ request = ok none

module _ (log : String → String) (show_status : ℤ → String) where
  abbrev pub wrapper_outcome : ComputeRequest → Float → String → String → Outcome
  wrapper_outcome request elapsed outcome limitation = record {
    job_id = request.job_id;
    outcome = outcome;
    method = "runtime-wrapper";
    objective = request.optimization.objective;
    runtime_seconds = elapsed;
    seed = request.seed;
    limitations = limitation ∷ [];
    log_ref = some (log request.job_id);
    mission_plan = none;
  }

  abbrev pub accepted_outcome : ComputeRequest → Float → Accepted → Outcome
  accepted_outcome request elapsed a = record {
    job_id = request.job_id;
    outcome = a.outcome;
    method = a.method;
    objective = request.optimization.objective;
    runtime_seconds = elapsed;
    seed = request.seed;
    limitations = a.limitations;
    log_ref = some (log request.job_id);
    mission_plan = a.mission;
  }

  abbrev pub after_accept : ComputeRequest → Float → Option Accepted → Result ComputeResponse
  after_accept request elapsed none = make_response (
      wrapper_outcome request elapsed "error"
        "Solver stdout was not a feasible or infeasible ComputeResponse.")
  after_accept request elapsed (some a) = make_response (accepted_outcome request elapsed a)

  abbrev pub is_zero : ℤ → Bool
  is_zero (pos n) = eqb n 0
  is_zero _ = false

  -- `run_solver`, by how the process ended.
  unfoldable pub run_solver : ComputeRequest → Ended → Result ComputeResponse
  unfolding make_response accept_solver_stdout
  run_solver request (terminated elapsed) = make_response (
      wrapper_outcome request elapsed "timed_out"
        "Solver exceeded the wrapper timeout and was terminated.")
  run_solver request (raised e) = err e
  run_solver request (exited status output elapsed) =
      if is_zero status
      then (do
        accepted ← accept_solver_stdout output request
        after_accept request elapsed accepted)
      else make_response (
          wrapper_outcome request elapsed "error"
            (f_string ("Solver exited with status " ∷ show_status status ∷ "." ∷ [])))

  abbrev pub early_outcome : String → String → Outcome
  early_outcome job_id message = record {
    job_id = job_id;
    outcome = "error";
    method = "runtime-wrapper";
    objective = "";
    runtime_seconds = float_zero;
    seed = pos 0;
    limitations = message ∷ [];
    log_ref = some (log job_id);
    mission_plan = none;
  }

  -- `_error`, as `execute` calls it.
  unfoldable pub early_error : String → String → Result ComputeResponse
  unfolding make_response
  early_error job_id message = make_response (early_outcome job_id message)

  abbrev pub named_job : Json → String
  named_job (obj body) = safe_job_id (get "job_id" body)
  named_job _ = "unknown"

  abbrev pub run_parsed :
      (ComputeRequest → Float → Ended)
      → Float
      → Json
      → Result ComputeRequest
      → Result ComputeResponse
  run_parsed process timeout value (ok request) = run_solver request (process request timeout)
  run_parsed process timeout value (err e) =
      if is_value_error e.kind then early_error (named_job value) e.message else err e

  abbrev pub run_decoded :
      (ComputeRequest → Float → Ended) → Float → Loaded → Result ComputeResponse
  run_decoded process timeout not_json = early_error "unknown" "request is not JSON"
  run_decoded process timeout (loaded value) =
      run_parsed process timeout value (parse_request value)
  run_decoded process timeout (unloaded e) = err e

  -- `execute`
  unfoldable pub execute :
      (ComputeRequest → Float → Ended) → Float → Loaded → Result ComputeResponse
  unfolding early_error run_solver parse_request safe_job_id float_leb
  execute process timeout_seconds body =
      if isfinite timeout_seconds && float_leb float_zero timeout_seconds
      then run_decoded process timeout_seconds body
      else early_error "unknown" "timeout must be a non-negative number of seconds"
