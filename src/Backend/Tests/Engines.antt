-- ===== src/Backend/Tests/Engines.antt =====
-- The engines behind the port.
use planes.Base.{String, ◌≡◌, ◌⊎◌, refl, none, some, [], ◌∷◌}
use planes.Base.Int.{pos}
use planes.Base.Result.{Error, ok, err, value_error}
use planes.Json.{get, str, end, field}
use planes.Json.Numbers.{float_zero}
use planes.Runtime.Contract.Responses.{Outcome, made, response_to_dict}
use planes.Runtime.Contract.Replies.{made-IsResponse}
use planes.Backend.Models.{ComputeResponse, to_dict}
use planes.Backend.Engines.{to_backend_response}
use planes.Backend.Engines.Kept.{to_backend_response-Kept}

abbrev solved : Outcome
solved = record {
  job_id = "job-1";
  outcome = "feasible";
  method = "runtime-pipeline";
  objective = "min_time";
  runtime_seconds = float_zero;
  seed = pos 7;
  limitations = "no wind" ∷ [];
  log_ref = some "job-1.log";
  mission_plan = some (field "plan" (str "p") end);
}

to_backend_response-Kept_example :
    ((((made solved).mission_plan ≡ none) ⊎ ((made solved).outcome ≡ "feasible"))
      × ((b : ComputeResponse) × (to_backend_response (made solved) ≡ ok b)
          × ((key : String) → get key (to_dict b) ≡ get key (response_to_dict (made solved)))))
    ⊎ ((((made solved).mission_plan ≡ none) ⊎ ((made solved).outcome ≡ "feasible") → ⊥)
        × ((e : Error) × (to_backend_response (made solved) ≡ err e) × (e.kind ≡ value_error)))
to_backend_response-Kept_example =
    to_backend_response-Kept (made solved) (made-IsResponse solved refl refl)
