-- ===== src/Backend/Engines.antt =====
-- backend/runtime_engine.py and backend/fake_engine.py: the two engines behind the port. The adapter
-- of the runtime is the port's parameter, as in the source; the text of `repr` of a value is one too.
pub mod Kept
use planes.Base.{
  String, Bool, true, false, ◌==◌, Option, none, some, List, [], ◌∷◌, contains, if◌then◌else◌,
}
use planes.Base.Int.{ℤ}
use planes.Base.Text.{f_string}
use planes.Base.Result.{Result, ok, raise, value_error, type_error, runtime_error, ◌>>=◌}
use planes.Json.{
  int, float, Json, Items, Fields, null, bool, num, str, arr, obj, nil, cons, end, field, get, has,
  elements,
}
use planes.Json.Numbers.{float_zero}
use planes.Runtime.Contract
use planes.Runtime.Contract.Responses.{report_to_dict, artifact_items}
use planes.Backend.Models.{ComputeRequest, ComputeResponse, contract_version, compute_response}

-- `_to_runtime_request`: of the optimization only two settings are passed on.
unfoldable pub to_runtime_request : ComputeRequest → Result Contract.ComputeRequest
to_runtime_request request =
    let optimization =
      field "objective" (get "objective" request.optimization)
        (field "time_limit_seconds" (get "time_limit_seconds" request.optimization) end) in
    Contract.parse_request (
      obj (
        field "contract_version" (str request.version) (
          field "job_id" (str request.job_id) (
            field "scenario" (obj request.scenario) (
              field "optimization" (obj optimization)
                (field "seed" (num (int request.seed)) end))))))

-- `_to_backend_response`
unfoldable pub to_backend_response : Contract.ComputeResponse → Result ComputeResponse
unfolding compute_response
to_backend_response response = compute_response (record {
  job_id = response.job_id;
  outcome = response.outcome;
  solver_report = report_to_dict response.solver_report;
  mission_plan = response.mission_plan;
  artifacts = elements (artifact_items response.artifacts);
  version = response.contract_version;
})

-- `RuntimeOptimizationEngine.solve`
unfoldable pub solve_runtime :
    (Contract.ComputeRequest → Result Contract.ComputeResponse)
    → ComputeRequest
    → Result ComputeResponse
unfolding to_runtime_request to_backend_response
solve_runtime adapter request = do
  runtime_request ← to_runtime_request request
  response ← adapter runtime_request
  to_backend_response response

abbrev pub fake_outcomes : List String
fake_outcomes = "feasible" ∷ "infeasible" ∷ "timed_out" ∷ "error" ∷ []

abbrev pub fake_report : ComputeRequest → Fields
fake_report request = field "method" (str "fake_backend_lifecycle_only") (
    field "runtime_seconds" (num (float float_zero)) (
      field "seed" (num (int request.seed)) (
        field "limitations"
          (arr (cons (str "synthetic test data; no UAV optimization performed") nil)) end)))

abbrev pub fake_plan : Fields
fake_plan = field "test_data" (bool true) (
    field "sorties"
      (arr (
        cons
          (obj (
            field "sortie_id" (str "FAKE-SORTIE-001") (
              field "waypoints" (arr nil)
                (field "note" (str "synthetic lifecycle fixture; not flyable") end))))
          nil))
      end)

abbrev pub fake_response : ComputeRequest → String → Result ComputeResponse
fake_response request outcome =
    if outcome == "error"
    then raise runtime_error "simulated FakeOptimizationEngine failure"
    else compute_response (record {
      job_id = request.job_id;
      outcome = outcome;
      solver_report = fake_report request;
      mission_plan = if outcome == "feasible" then some fake_plan else none;
      artifacts = [];
      version = contract_version;
    })

-- `outcome not in self._OUTCOMES`; the frozen form of a dict cannot be hashed, of a list only if its
-- elements can.
unfoldable mutual
  pub unhashable : Json → Bool
  unhashable (obj fs) = true
  unhashable (arr xs) = any_unhashable xs
  unhashable _ = false

  pub any_unhashable : Items → Bool
  any_unhashable nil = false
  any_unhashable (cons x xs) = if unhashable x then true else any_unhashable xs

abbrev pub known_fake : Json → Option String
known_fake (str s) = if contains s fake_outcomes then some s else none
known_fake _ = none

abbrev pub fake_known :
    (Json → String) → ComputeRequest → Json → Option String → Result ComputeResponse
fake_known show_repr request value (some outcome) = fake_response request outcome
fake_known show_repr request value none =
    if unhashable value
    then raise type_error "unhashable type: 'dict'"
    else raise value_error (f_string ("unsupported fake test_outcome: " ∷ show_repr value ∷ []))

-- `FakeOptimizationEngine.solve`
unfoldable pub solve_fake : (Json → String) → ComputeRequest → Result ComputeResponse
unfolding compute_response unhashable any_unhashable
solve_fake show_repr request =
    let value =
      if has "test_outcome" request.optimization
      then get "test_outcome" request.optimization
      else str "feasible" in
    fake_known show_repr request value (known_fake value)
