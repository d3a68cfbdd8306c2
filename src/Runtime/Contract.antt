-- ===== src/Runtime/Contract.antt =====
-- runtime/types.py: the requests and responses that the runtime exchanges as JSON, their parsers,
-- which check what they read, and their printers. `json.loads` and `json.dumps` stay outside: a
-- body is the JSON value that it encodes.
pub mod Responses
pub mod Limitations
pub mod RoundTrip
pub mod Replies
pub mod Errors
use Prim.Native.Char.{code}
use Prim.Native.String
use planes.Base.{
  ℕ, zero, suc, String, Bool, true, false, not, ◌&&◌, ◌||◌, ◌==◌, Option, none, some, List, [], ◌∷◌,
  ◌++◌, leb, eqb, contains, if◌then◌else◌,
}
use planes.Base.Int.{ℤ}
use planes.Base.Text.{is_blank, f_string}
use planes.Base.Result.{Result, ok, err, raise, require, value_error, type_error, ◌>>=◌, ◌>>◌}
use planes.Json.Loading.{Loaded, loaded, not_json, unloaded}
use planes.Json.{
  Float, Number, int, float, Json, Items, Fields, null, num, str, arr, obj, nil, cons, end, field,
  get, is_text, text_items,
}
use planes.Json.Numbers.{is_finite, is_negative, isfinite, float_leb, float_zero, to_float}

abbrev pub contract_version : String
contract_version = "v0"

abbrev pub outcomes : List String
outcomes = "feasible" ∷ "infeasible" ∷ "timed_out" ∷ "error" ∷ []

abbrev is_alnum : ℕ → Bool
is_alnum c = leb 48 c && leb c 57 || leb 65 c && leb c 90 || leb 97 c && leb c 122

abbrev is_id_char : ℕ → Bool
is_id_char c = is_alnum c || eqb c 45 || eqb c 46 || eqb c 95

-- At most `room` characters, each a letter, a digit, a dot, a dash or an underscore.
unfoldable id_tail : ℕ → String → Bool
id_tail room String.[] = true
id_tail zero (String.◌∷◌ c s) = false
id_tail (suc room) (String.◌∷◌ c s) = is_id_char (code c) && id_tail room s

-- `_JOB_ID.fullmatch(text)`
unfoldable pub is_job_id : String → Bool
unfolding id_tail
is_job_id String.[] = false
is_job_id (String.◌∷◌ c s) = is_alnum (code c) && id_tail 127 s

pub record OptimizationSettings : Type 0 where
  pub objective : String
  pub time_limit_seconds : Number
  pub placeholder_outcome : Option String

pub record ComputeRequest : Type 0 where
  pub contract_version : String
  pub job_id : String
  pub scenario : Fields
  pub optimization : OptimizationSettings
  pub seed : ℤ

pub record SolverReport : Type 0 where
  pub method : String
  pub objective : String
  pub runtime_seconds : Float
  pub seed : ℤ
  pub limitations : List String

pub record ArtifactRef : Type 0 where
  pub kind : String
  pub ref : String

pub record ComputeResponse : Type 0 where
  pub contract_version : String
  pub job_id : String
  pub outcome : String
  pub solver_report : SolverReport
  pub artifacts : List ArtifactRef
  pub mission_plan : Option Fields

abbrev pub checked_dict : String → Json → Result Fields
checked_dict message (obj fs) = ok fs
checked_dict message _ = raise value_error message

abbrev pub checked_id : String → Json → Result String
checked_id message (str s) = if is_job_id s then ok s else raise value_error message
checked_id message _ = raise value_error message

-- A number of seconds: finite and not negative.
abbrev pub checked_seconds : String → Json → Result Number
checked_seconds name (num n) =
    if is_finite n
    then (if is_negative n
        then raise value_error (f_string (name ∷ " must be non-negative" ∷ []))
        else ok n)
    else raise value_error (f_string (name ∷ " must be finite" ∷ []))
checked_seconds name _ = raise value_error (f_string (name ∷ " must be a number of seconds" ∷ []))

abbrev pub checked_int : String → Json → Result ℤ
checked_int message (num (int z)) = ok z
checked_int message _ = raise value_error message

abbrev pub checked_text : String → Json → Result String
checked_text message (str s) = ok s
checked_text message _ = raise value_error message

abbrev pub objective_of : Json → Result String
objective_of (str s) =
    if is_blank s
    then raise value_error "optimization.objective must be a non-empty string"
    else ok s
objective_of _ = raise value_error "optimization.objective must be a non-empty string"

abbrev pub placeholder_of : Json → Result (Option String)
placeholder_of null = ok none
placeholder_of (str s) = ok (some s)
placeholder_of _ = raise value_error "optimization.placeholder_outcome must be a string"

-- `_parse_optimization`
unfoldable pub parse_optimization : Json → Result OptimizationSettings
unfolding is_blank is_negative
parse_optimization value = do
  fields ← checked_dict "optimization must be a JSON object" value
  objective ← objective_of (get "objective" fields)
  limit ← checked_seconds "optimization.time_limit_seconds" (get "time_limit_seconds" fields)
  placeholder ← placeholder_of (get "placeholder_outcome" fields)
  ok (record {
    objective = objective;
    time_limit_seconds = limit;
    placeholder_outcome = placeholder;
  })

-- `_parse_seed`
abbrev pub parse_seed : Json → Result ℤ
parse_seed value = checked_int "seed must be an integer" value

unfoldable pub parse_request : Json → Result ComputeRequest
unfolding parse_optimization is_job_id
parse_request value = do
  body ← checked_dict "request must be a JSON object" value
  require (is_text contract_version (get "contract_version" body)) value_error
      "contract_version must be v0"
  job_id ← checked_id "job_id is missing or unsafe" (get "job_id" body)
  scenario ← checked_dict "scenario must be a JSON object" (get "scenario" body)
  optimization ← parse_optimization (get "optimization" body)
  seed ← parse_seed (get "seed" body)
  ok (record {
    contract_version = contract_version;
    job_id = job_id;
    scenario = scenario;
    optimization = optimization;
    seed = seed;
  })

-- `parse_request_bytes`, with what decoding the bytes gave.
unfoldable pub parse_request_bytes : Loaded → Result ComputeRequest
unfolding parse_request
parse_request_bytes not_json = raise value_error "request is not JSON"
parse_request_bytes (loaded value) = parse_request value
parse_request_bytes (unloaded e) = err e

abbrev pub placeholder_field : Option String → Fields
placeholder_field none = end
placeholder_field (some s) = field "placeholder_outcome" (str s) end

unfoldable pub request_to_dict : ComputeRequest → Fields
request_to_dict r =
    let optimization = field "objective" (str r.optimization.objective) (
      field "time_limit_seconds" (num r.optimization.time_limit_seconds)
        (placeholder_field r.optimization.placeholder_outcome)) in
    field "contract_version" (str r.contract_version) (
      field "job_id" (str r.job_id) (
        field "scenario" (obj r.scenario)
          (field "optimization" (obj optimization) (field "seed" (num (int r.seed)) end))))
