-- ===== src/Runtime/Tests/Clients.antt =====
-- The client of the compute listener, and the runner over the placeholder.
use planes.Base.{◌*◌, String, ◌==◌, Option, none, some, if◌then◌else◌}
use planes.Base.Int.{ℤ, pos}
use planes.Base.Result.{Result, ok}
use planes.Json.{obj, Float, finite, int, Fields, end}
use planes.Json.Numbers.{float_zero, unit}
use planes.Runtime.Contract.{ComputeRequest}
use planes.Runtime.Contract.Responses.{made, response_to_dict}
use planes.Json.Loading.{loaded}
use planes.Runtime.Runner.{Ended, exited}
use planes.Runtime.Placeholder.{placeholder_response}
use planes.Runtime.Adapter.{Exchange, wait_expired}

abbrev asked : ComputeRequest
asked = record {
  contract_version = "v0";
  job_id = "job-1";
  scenario = end;
  optimization = record {
    objective = "min_time";
    time_limit_seconds = int (pos 60);
    placeholder_outcome = none;
  };
  seed = pos 7;
}

abbrev environ : String → String
environ name = if name == "COMPUTE_TIMEOUT_SECONDS" then " 30 " else "compute"

abbrev thirty : String → Option Float
thirty s = if s == "30" then some (finite (pos (30 * unit))) else none

abbrev encode : Fields → Result Fields
encode payload = ok payload

abbrev exchange : String → String → Fields → Float → Exchange
exchange host token payload timeout = wait_expired

-- The harness asks for an infeasible result.
abbrev hopeless : ComputeRequest
hopeless = record asked {
  optimization = record {
    objective = "min_time";
    time_limit_seconds = int (pos 60);
    placeholder_outcome = some "infeasible";
  };
}

abbrev log : String → String
log job_id = "jobs.log"

abbrev show_status : ℤ → String
show_status status = "3"

abbrev hopeless_ended : Ended
hopeless_ended =
    exited (pos 0)
      (loaded (obj (response_to_dict (made (placeholder_response hopeless "infeasible")))))
      float_zero
