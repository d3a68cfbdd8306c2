-- ===== src/Backend/Tests/Requests.antt =====
-- The service, the API and the wind check.
use Prim.Native.String.{◌++◌}
use planes.Base.{String, ◌*◌, ◌≡◌, ◌≢◌, ◌↔◌, ◌⊎◌, refl, some, [], ◌∷◌, true, inl}
use planes.Base.Int.{pos}
use planes.Base.Result.{Error, ok, integrity_error, job_not_found}
use planes.Json.{
  finite, int, Fields, num, str, arr, obj, nil, cons, end, field, fields_finite, fields_short,
}
use planes.Json.Numbers.{digit_limit, unit, float_leb, to_float}
use planes.Backend.Store.{find, create_job, close}
use planes.Backend.Store.Invariant.{IsValid}
use planes.Backend.WindFilter.{
  keep_positive, WindRefusal, evaluate_wind_against_fleet, board_model, model_limit,
  scenario_wind_mps,
}
use planes.Backend.WindFilter.Selection.{Offers}
use planes.Backend.WindFilter.Largest.{Limit}
use planes.Backend.WindFilter.Refusal.{
  WindExceedsFleet, refusal-WindExceedsFleet, no_refusal_within, boards_of,
}
use planes.Backend.Service.{Submission, Accepted, validate, submit_job, get_result}
use planes.Backend.Service.Validation.{Accepts, validate_iff}
use planes.Backend.Service.Clients.{ResultError, get_result_errors}
use planes.Backend.Service.Delivery.{reply, get_result-close}
use planes.Backend.Worker.Round.{round_verdict}
use planes.Backend.Api.{Request, decoded, unreadable, call}
use planes.Backend.Api.Replies.{Uncaught, call_errors}
use planes.Backend.Api.Route.{job, result, route, no_slash, route_documented, route_slash}
use planes.Backend.ErrorCodes.Attach.{attach_classification}
use planes.Backend.ErrorCodes.Attach.Errors.{IsLongNumber}
use planes.Backend.Tests.Data.{
  ascii_alnum, no_floats, scenario, optimization, catalog, first, table, response,
}

-- The wind of the scenario is 12 m/s, above the only known limit.
abbrev refusal : WindRefusal
refusal = record {
  wind_mps = finite (pos (12 * unit));
  fleet_max_wind_mps = finite (pos (10 * unit));
  limiting_model_id = "m1";
  unknown_model_ids = [];
}

wind_refused : evaluate_wind_against_fleet scenario (ok catalog) ≡ ok (some refusal)
unfolding evaluate_wind_against_fleet keep_positive unit
wind_refused = refl

refusal-WindExceedsFleet_example : WindExceedsFleet scenario catalog refusal
refusal-WindExceedsFleet_example = refusal-WindExceedsFleet scenario catalog refusal wind_refused

-- With a wind of 9 m/s nothing is refused.
abbrev calm_scenario : Fields
calm_scenario =
    field "wind" (obj (field "speed_ms" (num (int (pos 9))) end))
      (field "boards" (arr (cons (obj (field "model_id" (str "m1") end)) nil)) end)

m1-Offers : Offers catalog (boards_of calm_scenario) "m1" (finite (pos (10 * unit)))
unfolding board_model model_limit keep_positive unit to_float
m1-Offers = record {
  board = obj (field "model_id" (str "m1") end);
  selected = inl refl;
  model = refl;
  known = refl;
}

no_refusal_within_example :
    (p : Limit) × Offers catalog (boards_of calm_scenario) p.0 p.1
    × (float_leb (finite (pos (9 * unit))) p.1 ≡ true)
unfolding evaluate_wind_against_fleet scenario_wind_mps keep_positive unit
no_refusal_within_example =
    no_refusal_within calm_scenario catalog (finite (pos (9 * unit))) "m1"
      (finite (pos (10 * unit))) refl refl m1-Offers

abbrev submission : Submission
submission = record {
  scenario = obj scenario;
  optimization = obj optimization;
  seed = num (int (pos 7));
  version = str "v0";
  job_id = str "c";
}

abbrev checked : Accepted
checked = record { job_id = "c"; scenario = scenario; optimization = optimization; seed = pos 7 }

validate_iff_example : (validate "uuid" submission ≡ ok checked) ↔ Accepts "uuid" submission checked
validate_iff_example = validate_iff "uuid" submission checked

table-IsValid : IsValid table
unfolding find
table-IsValid = (
  record { started = refl; finished = refl; result = refl; error = refl },
  refl,
  (record { started = refl; finished = refl; result = refl; error = refl }, refl, tt),
)

abbrev missing : Error
missing = record { kind = job_not_found; message = "z" }

get_result_errors_example : ResultError "z" table missing
unfolding get_result
get_result_errors_example =
    get_result_errors ascii_alnum no_floats "z" table missing table-IsValid refl

get_result-close_example :
    get_result ascii_alnum no_floats "a" (close (round_verdict "a" (ok response)) "t3" first ∷ [])
    ≡ attach_classification ascii_alnum no_floats (reply first (ok response))
unfolding find
get_result-close_example =
    get_result-close ascii_alnum no_floats "t3"
      (close (round_verdict "a" (ok response)) "t3" first ∷ []) first (ok response) refl

abbrev duplicate : Request
duplicate = record {
  method = "POST";
  path = "/jobs";
  length = some (pos 100);
  body = decoded (
      obj (
        field "scenario" (obj scenario) (
          field "optimization" (obj optimization)
            (field "seed" (num (int (pos 7))) (field "job_id" (str "a") end)))));
}

abbrev breach : Error
breach = record { kind = integrity_error; message = "UNIQUE constraint failed: jobs.job_id" }

call_errors_example :
    ((duplicate.method ≡ "POST")
      × (duplicate.path ≡ "/jobs")
      × (Uncaught breach ⊎ (duplicate.body ≡ unreadable breach)))
    ⊎ ((duplicate.method ≡ "GET")
        × ((id : String) × (route duplicate.path ≡ result id))
        × IsLongNumber breach)
unfolding call validate create_job fields_finite fields_short digit_limit submit_job
call_errors_example =
    call_errors ascii_alnum no_floats "uuid" "t9" duplicate table breach table-IsValid refl

route_documented_example :
    (route ("/jobs/" ++ "a") ≡ job "a") × (route ("/jobs/" ++ ("a" ++ "/result")) ≡ result "a")
unfolding no_slash
route_documented_example = route_documented "a" (λ e. cc) refl

route_slash_example : route ("/jobs/" ++ "a/b") ≢ job "a/b"
unfolding no_slash
route_slash_example = route_slash "a/b" "a/b" refl
