-- ===== src/Backend/Models.antt =====
-- backend/models.py: the request and the response of the engine port. The frozen and the thawed
-- form of JSON data hold the same values, so both are the value here.
use planes.Base.{String, ◌==◌, Bool, true, false, ◌||◌, Option, none, some, List, [], ◌∷◌, contains}
use planes.Base.Int.{ℤ}
use planes.Base.Text.{f_string}
use planes.Base.Result.{Result, ok, require, value_error, ◌>>◌}
use planes.Json.{Json, Fields, null, str, obj, arr, end, field, of_list}

abbrev pub contract_version : String
contract_version = "v0"

pub record ComputeRequest : Type 0 where
  pub job_id : String
  pub scenario : Fields
  pub optimization : Fields
  pub seed : ℤ
  pub version : String

-- The constructor with its `__post_init__`.
unfoldable pub compute_request : String → Fields → Fields → ℤ → String → Result ComputeRequest
compute_request job_id scenario optimization seed version = do
  require (version == contract_version) value_error
      (f_string ("unsupported contract version: " ∷ version ∷ []))
  ok (record {
    job_id = job_id;
    scenario = scenario;
    optimization = optimization;
    seed = seed;
    version = version;
  })

pub record ComputeResponse : Type 0 where
  pub job_id : String
  pub outcome : String
  pub solver_report : Fields
  pub mission_plan : Option Fields
  pub artifacts : List Json
  pub version : String

abbrev pub engine_outcomes : List String
engine_outcomes = "feasible" ∷ "infeasible" ∷ "timed_out" ∷ "error" ∷ []

abbrev pub is_none : Option Fields → Bool
is_none none = true
is_none (some _) = false

-- The constructor with its `__post_init__`; the fields are given as a record.
unfoldable pub compute_response : ComputeResponse → Result ComputeResponse
compute_response r = do
  require (r.version == contract_version) value_error
      (f_string ("unsupported contract version: " ∷ r.version ∷ []))
  require (contains r.outcome engine_outcomes) value_error
      (f_string ("unsupported engine outcome: " ∷ r.outcome ∷ []))
  require (r.outcome == "feasible" || is_none r.mission_plan) value_error
      "mission_plan is only valid for a feasible outcome"
  ok r

abbrev pub plan_json : Option Fields → Json
plan_json none = null
plan_json (some plan) = obj plan

-- `ComputeResponse.to_dict`
unfoldable pub to_dict : ComputeResponse → Fields
to_dict r = field "contract_version" (str r.version) (
    field "job_id" (str r.job_id) (
      field "outcome" (str r.outcome) (
        field "mission_plan" (plan_json r.mission_plan) (
          field "solver_report" (obj r.solver_report)
            (field "artifacts" (arr (of_list r.artifacts)) end)))))
