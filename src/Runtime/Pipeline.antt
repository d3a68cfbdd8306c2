-- ===== src/Runtime/Pipeline.antt =====
-- runtime/pipeline.py with the types of runtime/solver.py: the stages around one call of the solver.
-- The solver is an argument, and so are the clock (`after t` is its reading plus t, `elapsed` the time
-- that the call took) and the lines of runtime/physical_check.py for a failed solver. The stage
-- messages on stderr are left out. A `ValueError` here is any exception of that class or below it.
pub mod Answers
use planes.Base.{
  String, Bool, true, false, not, ◌&&◌, ◌==◌, Option, none, some, List, [], ◌∷◌, ◌++◌,
  if◌then◌else◌,
}
use planes.Base.Int.{ℤ, pos}
use planes.Base.Result.{
  Error, ErrorKind, Result, ok, err, raise, value_error, not_implemented_error, ◌>>=◌,
}
use planes.Json.{Float, Number, Json, Fields, null, obj, end, get, has}
use planes.Json.Numbers.{float_zero, to_float}
use planes.Json.Loading.{Loaded, loaded, unloaded}
use planes.Runtime.Contract.{ComputeRequest, ComputeResponse, parse_request_bytes}
use planes.Runtime.Contract.Responses.{Outcome, make_response, safe_job_id}

pub record Problem : Type 0 where
  pub job_id : String
  pub scenario : Fields
  pub objective : String
  pub seed : ℤ
  pub time_limit_seconds : Number

pub record Solution : Type 0 where
  pub mission_plan : Json
  pub method : String
  pub objective_value : Float
  pub limitations : List String

-- What a solver returns; `unexpected` is an object of no other class.
pub data Solved : Type 0 where
  solution : Solution → Solved
  infeasible timed_out : List String → Solved
  unexpected : Solved

-- `is_outer_scenario` of runtime/enumeration/outer.py
unfoldable pub is_outer_scenario : Fields → Bool
is_outer_scenario scenario =
    has "aerodromes" scenario
    && has "boards" scenario
    && not (has "pads" scenario)
    && not (has "uav_types" scenario)

-- `solve` of runtime/solver.py; `solve_outer` is one of its two backends.
unfoldable pub dispatch : (Problem → Float → Result Solved) → Problem → Float → Result Solved
unfolding is_outer_scenario
dispatch solve_outer problem deadline =
    if has "uav_types" problem.scenario
    then raise value_error "uav_types is not accepted"
    else if has "pads" problem.scenario
    then raise value_error "pads is not accepted"
    else if is_outer_scenario problem.scenario
    then solve_outer problem deadline
    else raise value_error "the listener only accepts the geo envelope"

pub record BoundInputs : Type 0 where
  pub job_id : String
  pub scenario : Json
  pub objective : String
  pub seed : ℤ
  pub time_limit_seconds : Number

abbrev pub bind : ComputeRequest → BoundInputs
bind request = record {
  job_id = request.job_id;
  scenario = obj request.scenario;
  objective = request.optimization.objective;
  seed = request.seed;
  time_limit_seconds = request.optimization.time_limit_seconds;
}

abbrev compile_scenario : BoundInputs → Json → Result Problem
compile_scenario bound (obj scenario) = ok (record {
  job_id = bound.job_id;
  scenario = scenario;
  objective = bound.objective;
  seed = bound.seed;
  time_limit_seconds = bound.time_limit_seconds;
})
compile_scenario bound _ = raise value_error "scenario must be a JSON object"

abbrev pub compile : BoundInputs → Result Problem
compile bound = compile_scenario bound bound.scenario

-- A response of the pipeline to a problem.
abbrev pub pipeline_outcome : Problem → String → List String → Float → Outcome
pipeline_outcome problem outcome limitations elapsed = record {
  job_id = problem.job_id;
  outcome = outcome;
  method = "runtime-pipeline";
  objective = problem.objective;
  runtime_seconds = elapsed;
  seed = problem.seed;
  limitations = limitations;
  log_ref = none;
  mission_plan = none;
}

-- `_error`
abbrev pub pipeline_error : Problem → List String → Float → Result ComputeResponse
pipeline_error problem limitations elapsed =
    make_response (pipeline_outcome problem "error" limitations elapsed)

abbrev pub solution_outcome : Problem → Solution → Fields → Float → Outcome
solution_outcome problem s plan elapsed =
    record (pipeline_outcome problem "feasible" s.limitations elapsed) {
      method = s.method;
      mission_plan = some plan;
    }

abbrev pub judge_solution : Problem → Solution → Float → Json → Result ComputeResponse
judge_solution problem s elapsed (obj plan) =
    if s.method == ""
    then pipeline_error problem ("solver returned a malformed Solution" ∷ []) elapsed
    else make_response (solution_outcome problem s plan elapsed)
judge_solution problem s elapsed _ =
    pipeline_error problem ("solver returned a malformed Solution" ∷ []) elapsed

unfoldable pub judge : Problem → Solved → Float → Result ComputeResponse
unfolding make_response
judge problem (solution s) elapsed = judge_solution problem s elapsed s.mission_plan
judge problem (infeasible limitations) elapsed =
    make_response (pipeline_outcome problem "infeasible" limitations elapsed)
judge problem (timed_out limitations) elapsed =
    make_response (pipeline_outcome problem "timed_out" limitations elapsed)
judge problem unexpected elapsed =
    pipeline_error problem ("solver returned an unexpected result" ∷ []) elapsed

abbrev pub body_job_id : Loaded → String
body_job_id (loaded (obj body)) = safe_job_id (get "job_id" body)
body_job_id _ = "unknown"

abbrev pub input_outcome : Loaded → String → Outcome
input_outcome body message = record {
  job_id = body_job_id body;
  outcome = "error";
  method = "runtime-pipeline";
  objective = "";
  runtime_seconds = float_zero;
  seed = pos 0;
  limitations = message ∷ [];
  log_ref = none;
  mission_plan = none;
}

-- `_input_error`, which reads the body once more, and passes an exception other than the decoder's.
unfoldable pub input_error : Loaded → String → Result ComputeResponse
unfolding make_response safe_job_id
input_error (unloaded e) message = err e
input_error body message = make_response (input_outcome body message)

abbrev pub is_value_error : ErrorKind → Bool
is_value_error value_error = true
is_value_error _ = false

abbrev pub is_not_implemented : ErrorKind → Bool
is_not_implemented not_implemented_error = true
is_not_implemented _ = false

abbrev pub value_message : Error → List String
value_message e = if is_value_error e.kind && not (e.message == "") then e.message ∷ [] else []

module _ (solve : Problem → Float → Result Solved)
    (limitation_lines : Fields → List String → List String) (after : Float → Float)
    (elapsed : Float) where
  abbrev solver_failed : Problem → Error → Result ComputeResponse
  solver_failed problem e =
      let limitations = "solver failed before producing a result" ∷ value_message e in
      pipeline_error problem (limitations ++ limitation_lines problem.scenario limitations) elapsed

  -- What the call of the solver becomes.
  abbrev pub after_solve : Problem → Result Solved → Result ComputeResponse
  after_solve problem (ok result) = judge problem result elapsed
  after_solve problem (err e) =
      if is_not_implemented e.kind
      then pipeline_error problem ("solver body is not implemented" ∷ []) elapsed
      else solver_failed problem e

  -- The time limit becomes a deadline outside every `try`.
  unfoldable pub run_problem : Problem → Result ComputeResponse
  unfolding judge to_float make_response
  run_problem problem = do
    seconds ← to_float problem.time_limit_seconds
    after_solve problem (solve problem (after seconds))

  -- `except ValueError`; every other exception passes.
  abbrev pub or_input_error :
      {A : Type 0} → Loaded → Result A → (A → Result ComputeResponse) → Result ComputeResponse
  or_input_error body (ok a) next = next a
  or_input_error body (err e) next =
      if is_value_error e.kind then input_error body e.message else err e

  -- `run`, on what decoding the body gives.
  unfoldable pub run : Loaded → Result ComputeResponse
  unfolding parse_request_bytes input_error run_problem
  run body =
      or_input_error body (parse_request_bytes body)
        (λ request. or_input_error body (compile (bind request)) run_problem)
