-- ===== src/Runtime/Placeholder/Runs.antt =====
-- What runtime/runner.py answers when its process is the one of runtime/placeholder.py.
use planes.Base.{String, if◌then◌else◌, ◌==◌, ◌≡◌, Option, none, some, [], ◌∷◌}
use planes.Base.Int.{ℤ, pos}
use planes.Base.Result.{Result, ok, err}
use planes.Json.{Float, Fields, obj}
use planes.Base.Text.{f_string}
use planes.Json.Loading.{Loaded, loaded, not_json}
use planes.Runtime.Contract.{ComputeRequest}
use planes.Runtime.Contract.Responses.{Outcome, made, make_response, response_to_dict}
use planes.Runtime.Runner.{Ended, exited, Accepted, wrapper_outcome, run_solver}
use planes.Runtime.Placeholder.{
  Halt, asleep, returned, in_mode, placeholder_response, placeholder_mission,
  placeholder_limitation,
}

-- `main` ended within the timeout; a traceback ends the process with status 1.
abbrev pub InTime : Float → Result Halt → Ended → Type 0
InTime elapsed (ok asleep) ended = ⊥
InTime elapsed (ok (returned status output)) ended = ended ≡ exited status output elapsed
InTime elapsed (err e) ended = ended ≡ exited (pos 1) not_json elapsed

module _ (log : String → String) (show_status : ℤ → String) (elapsed : Float)
    (r : ComputeRequest) where
  abbrev pub placed : String → Option Fields → Outcome
  placed outcome mission = record {
    job_id = r.job_id;
    outcome = outcome;
    method = "placeholder";
    objective = r.optimization.objective;
    runtime_seconds = elapsed;
    seed = r.seed;
    limitations = placeholder_limitation ∷ [];
    log_ref = some (log r.job_id);
    mission_plan = mission;
  }

  abbrev pub wrapped : String → String → Outcome
  wrapped = wrapper_outcome log show_status r elapsed

  -- What is to be answered in each mode of the harness.
  abbrev pub asked_for : String → Outcome
  asked_for mode =
      if mode == "feasible"
      then placed "feasible" (some (placeholder_mission r))
      else if mode == "infeasible"
      then placed "infeasible" none
      else if mode == "sleep"
      then wrapped "timed_out" "Solver exceeded the wrapper timeout and was terminated."
      else if mode == "invalid"
      then wrapped "error" "Solver stdout was not a feasible or infeasible ComputeResponse."
      else if mode == "crash"
      then wrapped "error"
          (f_string ("Solver exited with status " ∷ show_status (pos 3) ∷ "." ∷ []))
      else wrapped "error"
          (f_string ("Solver exited with status " ∷ show_status (pos 2) ∷ "." ∷ []))

  abbrev Obeys : String → Type 0
  Obeys mode =
      (ended : Ended)
      → InTime elapsed (in_mode r mode) ended
      → run_solver log show_status r ended ≡ make_response (asked_for mode)

  abbrev written : String → Loaded
  written mode = loaded (obj (response_to_dict (made (placeholder_response r mode))))

  abbrev taken : String → Option Fields → Accepted
  taken outcome mission = record {
    outcome = outcome;
    method = "placeholder";
    mission = mission;
    limitations = placeholder_limitation ∷ [];
  }
