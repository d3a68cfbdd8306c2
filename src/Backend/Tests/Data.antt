-- ===== src/Backend/Tests/Data.antt =====
-- The data of the backend's tests.
use planes.Base.{ℕ, Bool, ◌&&◌, ◌||◌, leb, String, none, some, [], ◌∷◌}
use planes.Base.Int.{pos}
use planes.Base.Result.{Result, ok}
use planes.Json.{Float, infinity, int, Fields, num, str, arr, obj, nil, cons, end, field}
use planes.Backend.Models.{ComputeRequest, ComputeResponse}
use planes.Backend.Store.{JobRecord, Table, new_row, start}
use planes.Backend.Worker.Pool.{Pool, assign}

abbrev pub scenario : Fields
scenario =
    field "wind" (obj (field "speed_ms" (num (int (pos 12))) end))
      (field "boards" (arr (cons (obj (field "model_id" (str "m1") end)) nil)) end)

abbrev pub optimization : Fields
optimization = field "objective" (str "min_time") end

-- The wind limit of the model "m1" is 10 m/s.
abbrev pub catalog : Fields
catalog =
    field "uav_models"
      (arr (cons (obj (field "id" (str "m1") (field "max_wind_m_s" (num (int (pos 10))) end))) nil))
      end

abbrev pub first : JobRecord
first = new_row "a" "v0" scenario optimization (pos 7) "t0"

abbrev pub second : JobRecord
second = new_row "b" "v0" scenario optimization (pos 8) "t1"

-- The table holds the younger job first.
abbrev pub table : Table
table = second ∷ first ∷ []

abbrev pub claimed_table : Table
claimed_table = second ∷ start "t2" first ∷ []

abbrev pub response : ComputeResponse
response = record {
  job_id = "a";
  outcome = "feasible";
  solver_report = end;
  mission_plan = some (field "plan" (str "p") end);
  artifacts = [];
  version = "v0";
}

abbrev pub engine : ComputeRequest → Result ComputeResponse
engine request = ok response

abbrev pub show : Float → String
show x = "12.0"

abbrev pub empty_pool : Pool
empty_pool = record { rows = []; holds = λ w. none }

abbrev pub queued_pool : Pool
queued_pool = record { rows = first ∷ []; holds = λ w. none }

abbrev pub busy_pool : Pool
busy_pool = record {
  rows = start "t2" first ∷ [];
  holds = assign (λ w. none) 3 (some (start "t2" first));
}

abbrev pub ascii_alnum : ℕ → Bool
ascii_alnum c = leb 48 c && leb c 57 || leb 65 c && leb c 90 || leb 97 c && leb c 122

abbrev pub no_floats : String → Float
no_floats s = infinity
