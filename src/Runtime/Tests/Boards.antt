-- ===== src/Runtime/Tests/Boards.antt =====
-- A scenario with one card and a catalog with its model and camera, on which the enumeration is run.
use planes.Base.{String, ◌≡◌, ◌*◌, refl, false, none, List, [], ◌∷◌, ℕ}
use planes.Base.Int.{ℤ, pos}
use planes.Base.Result.{Result, ok, raise, value_error}
use planes.Json.{Float, finite, float, Json, Fields, int, num, str, arr, obj, nil, cons, end, field}
use planes.Json.Numbers.{unit, float_zero}
use planes.Runtime.Enumeration.{Candidate, Attempt, positive_int}
use planes.Runtime.Enumeration.Admission.Cards.{Checked, valid, Prepared, prepare}
use planes.Runtime.Enumeration.Admission.Account.{IsAccounted, prepare-IsAccounted}
use planes.Runtime.Enumeration.Calls.{EnumerationResult, run_candidates, Winner}
use planes.Runtime.Enumeration.Calls.Limits.{IsRun, run_candidates-IsRun}

abbrev marked : Json → Json
marked value = obj (field "value" value (field "mark" (str "passport") end))

abbrev number : ℕ → Json
number n = marked (num (int (pos n)))

abbrev model : Fields
model = field "id" (str "gemini") (
    field "name" (str "Gemini") (
      field "airspeed_m_s" (number 12) (
        field "battery" (obj (field "energy_wh" (number 120) end)) (
          field "mass_kg" (number 2) (
            field "flight_time_s" (number 2400) (
              field "climb_m_s" (number 3)
                (field "max_wind_m_s" (number 10) (field "power_const_w" (number 200) end))))))))

abbrev camera : Fields
camera = field "id" (str "rgb") (
    field "spectra" (arr (cons (str "visible") nil)) (
      field "sensor_width_mm" (number 24) (
        field "sensor_height_mm" (number 16) (
          field "focal_length_mm" (number 35)
            (field "image_width_px" (number 6000) (field "image_height_px" (number 4000) end))))))

abbrev edge : Fields
edge = field "uav_model_id" (str "gemini") (field "camera_id" (str "rgb") end)

abbrev catalog : Fields
catalog = field "uav_models" (arr (cons (obj model) nil)) (
    field "cameras" (arr (cons (obj camera) nil))
      (field "compatibility" (arr (cons (obj edge) nil)) end))

abbrev aerodrome : Fields
aerodrome =
    field "id" (str "home")
      (field "lat" (num (int (pos 55))) (field "lon" (num (int (pos 37))) end))

abbrev board : Fields
board = field "id" (str "b1") (
    field "model_id" (str "gemini") (
      field "camera_id" (str "rgb")
        (field "aerodrome_id" (str "home") (field "count" (num (int (pos 1))) end))))

abbrev scenario : Fields
scenario = field "required_spectrum" (str "visible") (
    field "area" (arr nil) (
      field "criterion" (str "min_time") (
        field "wind" (obj end) (
          field "gsd_cm_per_px" (num (int (pos 5))) (
            field "survey" (obj end) (
              field "aerodromes" (arr (cons (obj aerodrome) nil))
                (field "boards" (arr (cons (obj board) nil)) end)))))))

abbrev limit_json : Json
limit_json = num (int (pos 60))

abbrev no_format : Float → String
no_format f = ""

-- A core input that is only counted.
abbrev accept : Fields → Checked ℕ
accept payload = valid 7

abbrev candidate : Candidate ℕ
candidate = record {
  aerodrome_id = "home";
  board_id = "b1";
  model_id = "gemini";
  camera_id = "rgb";
  payload = 7;
}

abbrev notes : List String
notes =
    "non-passport board b1 model gemini camera rgb: power coefficients sent to the core are kh/kv/kw 90 / 0.02 / 0.008 because it cannot accept constant 200 W (passport)"
    ∷ "non-passport board b1 model gemini camera rgb: apply_turn_to_base=false is a fixed core default"
    ∷ "non-passport board b1 model gemini camera rgb: turn_time_s=5 s is a fixed core default" ∷ []

abbrev prepared : Prepared ℕ
prepared = record { built = candidate ∷ []; skips = []; mismatches = []; notes = notes }

scenario_prepared : prepare no_format accept (ok catalog) limit_json (obj scenario) ≡ ok prepared
unfolding prepare
scenario_prepared = refl

prepare-IsAccounted_example : IsAccounted scenario prepared
prepare-IsAccounted_example =
    prepare-IsAccounted no_format accept (ok catalog) limit_json scenario prepared scenario_prepared

-- What the core answers to every input.
abbrev core_answer : Fields
core_answer = field "status" (str "feasible") (
    field "mission" (obj (field "mission_time_s" (num (float (finite (pos (90 * unit))))) end)) end)

abbrev keep_limit : ℤ → ℕ → ℕ
keep_limit limit payload = payload

abbrev core : ℕ → ℤ → Result Json
core payload seed = ok (obj core_answer)

abbrev no_clock : ℕ → Float
no_clock index = float_zero

abbrev tried : Attempt ℕ
tried = record {
  aerodrome_id = "home";
  board_id = "b1";
  model_id = "gemini";
  camera_id = "rgb";
  payload = 7;
  result = core_answer;
}

abbrev enumerated : EnumerationResult ℕ
enumerated = record {
  attempts = tried ∷ [];
  stopped_for_deadline = false;
  skips = [];
  mismatches = [];
  reason = none;
  disclosures = notes;
}

scenario_ran :
    run_candidates keep_limit core
      (pos 7)
      limit_json
      none
      no_clock
      no_format
      accept
      (ok catalog)
      (obj scenario)
    ≡ ok enumerated
unfolding run_candidates
scenario_ran = refl

run_candidates-IsRun_example :
    (limit : ℕ) × (positive_int limit_json "time_limit_s" ≡ ok limit)
    × IsRun keep_limit core
        (pos 7)
        limit_json
        none
        no_clock
        limit
        (tried ∷ [], false)
        (candidate ∷ [])
run_candidates-IsRun_example =
    run_candidates-IsRun keep_limit core (pos 7) limit_json none no_clock no_format accept
      (ok catalog) (obj scenario) enumerated prepared candidate [] scenario_prepared refl
      scenario_ran

abbrev no_parse : String → Result Float
no_parse s = raise value_error "could not convert string to float"

abbrev selected : Winner
selected = record {
  aerodrome_id = "home";
  board_id = "b1";
  model_id = "gemini";
  camera_id = "rgb";
  result = tried.result;
  objective_value = finite (pos (90 * unit));
}
