-- ===== src/Backend/WindFilter.antt =====
-- backend/wind_filter.py: the wind check that the worker makes before it calls the engine. The text
-- of a float and the catalog file's contents come as arguments.
pub mod Order
pub mod Largest
pub mod Refusal
pub mod Selection
use planes.Base.{
  String, ◌==◌, Bool, true, false, not, ◌&&◌, Option, none, some, List, [], ◌∷◌, ◌++◌, contains,
  eqb, if◌then◌else◌,
}
use planes.Base.Int.{ℤ, pos}
use planes.Base.Text.{is_blank, f_string, join}
use planes.Base.Result.{Result, ok, err, ◌>>=◌}
use planes.Json.{
  Float, nan, finite, Number, int, float, Json, Fields, Items, null, bool, num, str, arr, obj, nil,
  cons, end, field, get, elements, text_items,
}
use planes.Json.Numbers.{to_float, isfinite, float_ltb, float_leb, float_zero}
use planes.Backend.Models.{ComputeRequest, ComputeResponse, compute_response, contract_version}

-- `value if math.isfinite(value) and value > 0 else None`
unfoldable pub keep_positive : Float → Option Float
unfolding float_ltb
keep_positive value = if isfinite value && float_ltb float_zero value then some value else none

unfoldable pub positive : Number → Result (Option Float)
positive n = to_float n >>= λ value. ok (keep_positive value)

-- `marked_positive_number`; the second function reads the key `value` of a mapping.
unfoldable mutual
  unfolding positive

  pub marked_positive_number : Json → Result (Option Float)
  marked_positive_number (num n) = positive n
  marked_positive_number (obj fs) = marked_value fs
  marked_positive_number null = ok none
  marked_positive_number (bool _) = ok none
  marked_positive_number (str _) = ok none
  marked_positive_number (arr _) = ok none

  pub marked_value : Fields → Result (Option Float)
  marked_value end = ok none
  marked_value (field k v fs) = if k == "value" then marked_positive_number v else marked_value fs

-- One key of the loop of `scenario_wind_mps`; `rest` is what the further keys give.
unfoldable pub wind_value : Json → Result (Option Float) → Result (Option Float)
unfolding to_float float_leb
wind_value (num n) rest = do
  value ← to_float n
  if isfinite value && float_leb float_zero value then ok (some value) else rest
wind_value _ rest = rest

unfoldable pub wind_from : List String → Fields → Result (Option Float)
unfolding wind_value
wind_from [] wind = ok none
wind_from (key ∷ keys) wind = wind_value (get key wind) (wind_from keys wind)

abbrev wind_keys : List String
wind_keys = "speed_ms" ∷ "speed_m_s" ∷ "speed_mps" ∷ []

abbrev wind_of : Json → Result (Option Float)
wind_of (obj wind) = wind_from wind_keys wind
wind_of _ = ok none

unfoldable pub scenario_wind_mps : Fields → Result (Option Float)
unfolding wind_from
scenario_wind_mps scenario = wind_of (get "wind" scenario)

-- `_model_index(catalog).get(id)`: the last row with that id.
abbrev row_with_id : String → Json → Option Fields
row_with_id id (obj fs) = elim (get "id" fs) [
  | str s ↦ if s == id then some fs else none
  | _ ↦ none
]
row_with_id id _ = none

abbrev or_else : {A : Type 0} → Option A → Option A → Option A
or_else none d = d
or_else (some a) d = some a

unfoldable pub last_row : String → List Json → Option Fields
last_row id [] = none
last_row id (x ∷ xs) = or_else (last_row id xs) (row_with_id id x)

abbrev rows_of : Json → List Json
rows_of (arr xs) = elements xs
rows_of _ = []

abbrev limit_cell : Option Fields → Json
limit_cell none = null
limit_cell (some row) = get "max_wind_m_s" row

-- The known wind limit of a model, if the catalog has one.
unfoldable pub model_limit : Fields → String → Result (Option Float)
unfolding last_row marked_positive_number
model_limit catalog id =
    marked_positive_number (limit_cell (last_row id (rows_of (get "uav_models" catalog))))

abbrev usable_text : Json → Option String
usable_text (str s) = if is_blank s then none else some s
usable_text _ = none

-- The model that a board names, if it is a mapping and names one.
unfoldable pub board_model : Json → Option String
unfolding is_blank
board_model (obj board) = usable_text (get "model_id" board)
board_model _ = none

-- The lists `known` and `unknown` of the loop over the boards.
pub record Limits : Type 0 where
  pub known : List (String × Float)
  pub unknown : List String

abbrev pub add_limit : String → Option Float → Limits → Limits
add_limit id none l = record l { unknown = id ∷ l.unknown }
add_limit id (some limit) l = record l { known = (id, limit) ∷ l.known }

abbrev pub fresh : Option String → List String → Option String
fresh none seen = none
fresh (some id) seen = if contains id seen then none else some id

unfoldable pub collect : Fields → List Json → List String → Result Limits
unfolding model_limit board_model
collect catalog [] seen = ok (record { known = []; unknown = [] })
collect catalog (board ∷ boards) seen = elim (fresh (board_model board) seen) [
  | none ↦ collect catalog boards seen
  | some id ↦ model_limit catalog id >>= λ limit.
      collect catalog boards (id ∷ seen) >>= λ rest. ok (add_limit id limit rest)
]

-- `max(known, key=limit)`: the first of the largest.
unfoldable pub largest : String × Float → List (String × Float) → String × Float
unfolding float_ltb
largest best [] = best
largest best (x ∷ xs) = largest (if float_ltb best.1 x.1 then x else best) xs

pub record WindRefusal : Type 0 where
  pub wind_mps : Float
  pub fleet_max_wind_mps : Float
  pub limiting_model_id : String
  pub unknown_model_ids : List String

-- The end of `evaluate_wind_against_fleet`, on the collected limits.
unfoldable pub judge : Float → List (String × Float) → List String → Option WindRefusal
unfolding largest float_leb
judge wind [] unknown = none
judge wind (x ∷ known) unknown =
    let best = largest x known in
    if float_leb wind best.1
    then none
    else some (record {
      wind_mps = wind;
      fleet_max_wind_mps = best.1;
      limiting_model_id = best.0;
      unknown_model_ids = unknown;
    })

-- What follows once the wind is known; the catalog is read only here.
unfoldable pub against_boards : Float → List Json → Result Fields → Result (Option WindRefusal)
unfolding collect judge
against_boards wind [] catalog = ok none
against_boards wind (b ∷ boards) catalog =
    catalog >>= λ models. collect models (b ∷ boards) [] >>= λ l. ok (judge wind l.known l.unknown)

abbrev after_wind : Option Float → List Json → Result Fields → Result (Option WindRefusal)
after_wind none boards catalog = ok none
after_wind (some wind) boards catalog = against_boards wind boards catalog

-- `evaluate_wind_against_fleet`; boards that are no list read as none.
unfoldable pub evaluate_wind_against_fleet : Fields → Result Fields → Result (Option WindRefusal)
unfolding scenario_wind_mps against_boards
evaluate_wind_against_fleet scenario catalog =
    scenario_wind_mps scenario >>= λ wind. after_wind wind (rows_of (get "boards" scenario)) catalog

-- `bool(value)`
abbrev pub truthy : Json → Bool
truthy null = false
truthy (bool b) = b
truthy (num (int (pos n))) = not (eqb n 0)
truthy (num (float (finite (pos n)))) = not (eqb n 0)
truthy (num _) = true
truthy (str s) = not (s == "")
truthy (arr nil) = false
truthy (obj end) = false
truthy _ = true

module _ (show_float : Float → String) where
  -- `WindRefusal.limitation`
  unfoldable pub limitation : WindRefusal → String
  limitation r = f_string (
      "wind_mps="
      ∷ show_float r.wind_mps
      ∷ " exceeds fleet_max_wind_mps="
      ∷ show_float r.fleet_max_wind_mps
      ∷ " (limiting model_id="
      ∷ r.limiting_model_id
      ∷ ")"
      ∷ [])

  abbrev unknown_notes : List String → List String
  unknown_notes [] = []
  unknown_notes (id ∷ ids) =
      f_string ("unknown max_wind_m_s for model_id=" ∷ join "," (id ∷ ids) ∷ []) ∷ []

  unfoldable pub refusal_response : ComputeRequest → WindRefusal → Result ComputeResponse
  unfolding limitation compute_response
  refusal_response request r =
      let objective = get "objective" request.optimization in
      compute_response (record {
        job_id = request.job_id;
        outcome = "infeasible";
        solver_report = field "method" (str "api_wind_filter") (
            field "objective" (if truthy objective then objective else str "") (
              field "runtime_seconds" (num (float float_zero)) (
                field "seed" (num (int request.seed)) (
                  field "limitations"
                    (arr (text_items (limitation r ∷ unknown_notes r.unknown_model_ids))) end))));
        mission_plan = none;
        artifacts = [];
        version = contract_version;
      })

  abbrev respond : ComputeRequest → Option WindRefusal → Result (Option ComputeResponse)
  respond request none = ok none
  respond request (some r) = refusal_response request r >>= λ response. ok (some response)

  unfoldable pub refuse_if_wind_exceeds_fleet :
      ComputeRequest → Result Fields → Result (Option ComputeResponse)
  unfolding evaluate_wind_against_fleet refusal_response
  refuse_if_wind_exceeds_fleet request catalog =
      evaluate_wind_against_fleet request.scenario catalog >>= respond request
