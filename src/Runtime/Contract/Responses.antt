-- ===== src/Runtime/Contract/Responses.antt =====
-- The responses of runtime/types.py: the parser, the printer and `make_response`.
use planes.Base.{String, ◌&&◌, ◌==◌, Option, none, some, List, [], ◌∷◌, contains, if◌then◌else◌}
use planes.Base.Int.{ℤ}
use planes.Base.Result.{Result, ok, raise, require, value_error, type_error, ◌>>=◌, ◌>>◌}
use planes.Json.{
  Float, int, float, Json, Items, Fields, null, num, str, arr, obj, nil, cons, end, field, get,
  is_text, text_items,
}
use planes.Json.Numbers.{isfinite, float_leb, float_zero, to_float}
use planes.Runtime.Contract.{
  contract_version, outcomes, is_job_id, SolverReport, ArtifactRef, ComputeResponse, checked_dict,
  checked_id, checked_seconds, checked_int, checked_text,
}
use planes.Runtime.Contract.Limitations.{unique_limitations}

-- `outcome not in OUTCOMES`: the set hashes the value, so a list or a dict raises.
abbrev pub outcome_of : Json → Result String
outcome_of (str s) =
    if contains s outcomes then ok s else raise value_error "response outcome is not allowed"
outcome_of (arr _) = raise type_error "unhashable type: 'list'"
outcome_of (obj _) = raise type_error "unhashable type: 'dict'"
outcome_of _ = raise value_error "response outcome is not allowed"

abbrev pub mission_of : Json → Result (Option Fields)
mission_of null = ok none
mission_of (obj plan) = ok (some plan)
mission_of _ = raise value_error "mission_plan must be a JSON object when present"

abbrev pub method_of : Json → Result String
method_of (str s) =
    if s == "" then raise value_error "solver_report.method must be a non-empty string" else ok s
method_of _ = raise value_error "solver_report.method must be a non-empty string"

abbrev text_before : Json → Option (List String) → Option (List String)
text_before (str s) (some texts) = some (s ∷ texts)
text_before _ _ = none

abbrev pub texts_of_items : Items → Option (List String)
texts_of_items nil = some []
texts_of_items (cons x xs) = text_before x (texts_of_items xs)

abbrev pub all_texts : Option (List String) → Result (List String)
all_texts none = raise value_error "solver_report.limitations must be a list of strings"
all_texts (some texts) = ok texts

abbrev pub limitations_of : Json → Result (List String)
limitations_of (arr xs) = all_texts (texts_of_items xs)
limitations_of _ = raise value_error "solver_report.limitations must be a list of strings"

-- `_parse_report`
unfoldable pub parse_report : Json → Result SolverReport
unfolding unique_limitations to_float
parse_report value = do
  report ← checked_dict "solver_report must be a JSON object" value
  method ← method_of (get "method" report)
  objective ← checked_text "solver_report.objective must be a string" (get "objective" report)
  runtime ← checked_seconds "solver_report.runtime_seconds" (get "runtime_seconds" report)
  seed ← checked_int "solver_report.seed must be an integer" (get "seed" report)
  limitations ← limitations_of (get "limitations" report)
  runtime_seconds ← to_float runtime
  ok (record {
    method = method;
    objective = objective;
    runtime_seconds = runtime_seconds;
    seed = seed;
    limitations = unique_limitations limitations;
  })

abbrev pub parse_artifact : Json → Result ArtifactRef
parse_artifact value = do
  item ← checked_dict "artifact must be a JSON object" value
  kind ← checked_text "artifact kind and ref must be strings" (get "kind" item)
  ref ← checked_text "artifact kind and ref must be strings" (get "ref" item)
  ok (record { kind = kind; ref = ref })

unfoldable pub parse_items : Items → Result (List ArtifactRef)
parse_items nil = ok []
parse_items (cons x xs) = do item ← parse_artifact x; items ← parse_items xs; ok (item ∷ items)

-- `_parse_artifacts`
unfoldable pub parse_artifacts : Json → Result (List ArtifactRef)
unfolding parse_items
parse_artifacts (arr xs) = parse_items xs
parse_artifacts _ = raise value_error "artifacts must be a list"

unfoldable pub parse_response : Json → Result ComputeResponse
unfolding parse_report parse_artifacts is_job_id
parse_response value = do
  body ← checked_dict "response must be a JSON object" value
  require (is_text contract_version (get "contract_version" body)) value_error
      "response contract_version must be v0"
  job_id ← checked_id "response job_id is missing or unsafe" (get "job_id" body)
  outcome ← outcome_of (get "outcome" body)
  mission ← mission_of (get "mission_plan" body)
  report ← parse_report (get "solver_report" body)
  artifacts ← parse_artifacts (get "artifacts" body)
  ok (record {
    contract_version = contract_version;
    job_id = job_id;
    outcome = outcome;
    solver_report = report;
    artifacts = artifacts;
    mission_plan = mission;
  })

abbrev pub report_to_dict : SolverReport → Fields
report_to_dict r = field "method" (str r.method) (
    field "objective" (str r.objective) (
      field "runtime_seconds" (num (float r.runtime_seconds)) (
        field "seed" (num (int r.seed))
          (field "limitations" (arr (text_items r.limitations)) end))))

abbrev pub artifact_items : List ArtifactRef → Items
artifact_items [] = nil
artifact_items (item ∷ items) =
    cons (obj (field "kind" (str item.kind) (field "ref" (str item.ref) end)))
      (artifact_items items)

abbrev pub plan_field : Option Fields → Fields
plan_field none = end
plan_field (some plan) = field "mission_plan" (obj plan) end

unfoldable pub response_to_dict : ComputeResponse → Fields
response_to_dict r = field "contract_version" (str r.contract_version) (
    field "job_id" (str r.job_id) (
      field "outcome" (str r.outcome) (
        field "solver_report" (obj (report_to_dict r.solver_report))
          (field "artifacts" (arr (artifact_items r.artifacts)) (plan_field r.mission_plan)))))

-- The keyword arguments of `make_response`.
pub record Outcome : Type 0 where
  pub job_id : String
  pub outcome : String
  pub method : String
  pub objective : String
  pub runtime_seconds : Float
  pub seed : ℤ
  pub limitations : List String
  pub log_ref : Option String
  pub mission_plan : Option Fields

-- `safe_job_id`
unfoldable pub safe_job_id : Json → String
unfolding is_job_id
safe_job_id (str s) = if is_job_id s then s else "unknown"
safe_job_id _ = "unknown"

abbrev pub log_artifacts : Option String → List ArtifactRef
log_artifacts none = []
log_artifacts (some ref) = if ref == "" then [] else record { kind = "log"; ref = ref } ∷ []

-- A time that is not a number of seconds becomes zero.
abbrev pub elapsed_of : Float → Float
elapsed_of t = if isfinite t && float_leb float_zero t then t else float_zero

abbrev pub made : Outcome → ComputeResponse
made o = record {
  contract_version = contract_version;
  job_id = if is_job_id o.job_id then o.job_id else "unknown";
  outcome = o.outcome;
  solver_report = record {
    method = o.method;
    objective = o.objective;
    runtime_seconds = elapsed_of o.runtime_seconds;
    seed = o.seed;
    limitations = unique_limitations o.limitations;
  };
  artifacts = log_artifacts o.log_ref;
  mission_plan = o.mission_plan;
}

unfoldable pub make_response : Outcome → Result ComputeResponse
make_response o =
    if contains o.outcome outcomes then ok (made o) else raise value_error "outcome is not allowed"
