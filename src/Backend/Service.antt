-- ===== src/Backend/Service.antt =====
-- backend/service.py: the use cases behind the HTTP API. A fresh UUID and the parameters of the
-- classification are arguments.
pub mod Validation
pub mod Clients
pub mod Delivery
use planes.Base.{
  ℕ, String, ◌==◌, Bool, true, false, not, ◌&&◌, ◌||◌, Option, none, some, List, [], ◌∷◌,
  if◌then◌else◌,
}
use planes.Base.Int.{ℤ}
use planes.Base.Text.{is_blank, f_string}
use planes.Base.Result.{
  Error, Result, ok, err, raise, require, validation_error, runtime_error, job_not_found,
  result_not_ready, ◌>>=◌, ◌>>◌,
}
use planes.Json.{
  Float, Number, int, float, Json, Fields, null, bool, num, str, arr, obj, end, field, get, has,
  is_empty, is_text, fields_finite, fields_short,
}
use planes.Backend.Models.{contract_version}
use planes.Backend.ErrorCodes.Attach.{attach_classification}
use planes.Backend.Store.{
  JobState, queued, running, completed, failed, timed_out, JobRecord, Table, find, create_job,
}

-- The arguments of `submit_job`, as the payload has them.
pub record Submission : Type 0 where
  pub scenario : Json
  pub optimization : Json
  pub seed : Json
  pub version : Json
  pub job_id : Json

abbrev scenario_of : Json → Result Fields
scenario_of (obj fs) =
    if is_empty fs then raise validation_error "scenario must be a non-empty JSON object" else ok fs
scenario_of _ = raise validation_error "scenario must be a non-empty JSON object"

abbrev optimization_of : Json → Result Fields
optimization_of (obj fs) = ok fs
optimization_of _ = raise validation_error "optimization must be a JSON object"

abbrev seed_of : Json → Result ℤ
seed_of (num (int z)) = ok z
seed_of _ = raise validation_error "seed must be an integer"

abbrev job_id_of : String → Json → Result String
job_id_of uuid null = ok uuid
job_id_of uuid (str s) =
    if is_blank s then raise validation_error "job_id must be a non-empty string" else ok s
job_id_of uuid _ = raise validation_error "job_id must be a non-empty string"

-- `_snapshot_json`: `json.dumps` with `allow_nan=False` refuses a number that is not finite, and an
-- integer of more than 4300 digits.
unfoldable pub snapshot : String → Fields → Result Fields
snapshot name fs =
    if fields_finite fs && fields_short fs
    then ok fs
    else raise validation_error (f_string (name ∷ " must contain only finite JSON data" ∷ []))

-- What the checks of `submit_job` let through.
pub record Accepted : Type 0 where
  pub job_id : String
  pub scenario : Fields
  pub optimization : Fields
  pub seed : ℤ

unfoldable pub validate : String → Submission → Result Accepted
unfolding snapshot is_blank
validate uuid s = do
  require (is_text contract_version s.version) validation_error "contract_version must be 'v0'"
  scenario ← scenario_of s.scenario
  optimization ← optimization_of s.optimization
  seed ← seed_of s.seed
  job_id ← job_id_of uuid s.job_id
  scenario_snapshot ← snapshot "scenario" scenario
  optimization_snapshot ← snapshot "optimization" optimization
  ok (record {
    job_id = job_id;
    scenario = scenario_snapshot;
    optimization = optimization_snapshot;
    seed = seed;
  })

abbrev pub state_text : JobState → String
state_text queued = "queued"
state_text running = "running"
state_text completed = "completed"
state_text failed = "failed"
state_text timed_out = "timed_out"

abbrev pub optional_text : Option String → Json
optional_text none = null
optional_text (some s) = str s

abbrev pub optional_dict : Option Fields → Json
optional_dict none = null
optional_dict (some fs) = obj fs

-- `_status_view`
unfoldable pub status_view : JobRecord → Fields
status_view r = field "contract_version" (str r.version) (
    field "job_id" (str r.job_id) (
      field "state" (str (state_text r.state)) (
        field "created_at" (str r.created_at) (
          field "started_at" (optional_text r.started_at)
            (field "finished_at" (optional_text r.finished_at) end)))))

abbrev view_created : Result JobRecord × Table → Result Fields × Table
view_created (r, rows) = (r >>= λ job. ok (status_view job), rows)

abbrev store_accepted : String → Result Accepted → Table → Result Fields × Table
store_accepted now (err e) rows = (err e, rows)
store_accepted now (ok a) rows =
    view_created (create_job a.job_id contract_version a.scenario a.optimization a.seed now rows)

-- `submit_job`, at one reading of the clock and with the UUID that it would draw.
unfoldable pub submit_job : String → String → Submission → Table → Result Fields × Table
submit_job uuid now s rows = store_accepted now (validate uuid s) rows

abbrev found_job : String → Option JobRecord → Result JobRecord
found_job id none = raise job_not_found id
found_job id (some r) = ok r

unfoldable pub get_job : String → Table → Result Fields
unfolding find status_view
get_job id rows = found_job id (find id rows) >>= λ r. ok (status_view r)

-- `{"state": state, **result}`: a key of `result` wins.
abbrev pub with_state : String → Fields → Fields
with_state state result = if has "state" result then result else field "state" (str state) result

module _ (is_alnum : ℕ → Bool) (parse_float : String → Float) where
  abbrev terminal_result : JobRecord → Option Fields → Result Fields
  terminal_result r none =
      raise runtime_error (f_string ("terminal job " ∷ r.job_id ∷ " has no result" ∷ []))
  terminal_result r (some result) =
      attach_classification is_alnum parse_float (with_state (state_text r.state) result)

  abbrev result_of : JobRecord → JobState → Result Fields
  result_of r queued = raise result_not_ready "queued"
  result_of r running = raise result_not_ready "running"
  result_of r failed = attach_classification is_alnum parse_float (
      field "contract_version" (str r.version) (
        field "job_id" (str r.job_id)
          (field "state" (str "failed") (field "error" (optional_dict r.error) end))))
  result_of r completed = terminal_result r r.result
  result_of r timed_out = terminal_result r r.result

  unfoldable pub get_result : String → Table → Result Fields
  unfolding find
  get_result id rows = found_job id (find id rows) >>= λ r. result_of r r.state
