-- ===== src/Runtime/Enumeration/Admission/Cards.antt =====
-- The payload of a card, and `_prepare` as a whole.
use planes.Base.{
  ℕ, ◌*◌, ◌^◌, String, Bool, true, false, not, ◌||◌, ◌==◌, Option, none, some, List, [], ◌∷◌, ◌++◌,
  ltb, length, if◌then◌else◌,
}
use planes.Base.Int.{ℤ, pos}
use planes.Base.Text.{f_string, join}
use planes.Base.Result.{Result, ok, raise, require, value_error, ◌>>=◌, ◌>>◌}
use planes.Json.{
  Float, finite, int, float, Json, Fields, bool, num, obj, end, field, get, has, is_text,
}
use planes.Json.Numbers.{to_float}
use planes.Json.Numbers.Arithmetic.{to_int}
use planes.Runtime.Contract.Limitations.{unique_limitations}
use planes.Runtime.Enumeration.{
  max_calls, Skip, SpectrumMismatch, Candidate, Aerodrome, missing, checked_name, positive_int,
}
use planes.Runtime.Enumeration.Scenario.{aerodromes_of, boards_of}
use planes.Runtime.Enumeration.Catalog.{
  index_rows, compatibility_of, Tagged, tagged, require_tagged, PowerTriple, power_triple,
  turn_entry, battery_energy,
}
use planes.Runtime.Enumeration.Admission.{Card, Sorted, sort_boards}

-- `float(_require_tagged(value, label)[0])`
abbrev pub marked_float : Json → String → Result Json
marked_float value label = do
  t ← require_tagged false value label
  f ← to_float t.0
  ok (num (float f))

abbrev pub marked_pixels : Json → String → Result Json
marked_pixels value label = do t ← require_tagged true value label; z ← to_int t.0; ok (num (int z))

-- `_optics`
unfoldable pub optics_of : Fields → Result Fields
unfolding tagged to_float to_int
optics_of camera = do
  width ← marked_float (get "sensor_width_mm" camera) "sensor_width_mm"
  height ← marked_float (get "sensor_height_mm" camera) "sensor_height_mm"
  focal ← marked_float (get "focal_length_mm" camera) "focal_length_mm"
  columns ← marked_pixels (get "image_width_px" camera) "image_width_px"
  lines ← marked_pixels (get "image_height_px" camera) "image_height_px"
  ok (
      field "sensor_width_mm" width (
        field "sensor_height_mm" height (
          field "focal_length_mm" focal
            (field "image_width_px" columns (field "image_height_px" lines end)))))

-- `_flight`; its last check compares two fixed lists of keys, which are equal.
unfoldable pub flight_of : Fields → ℤ → Result Fields
unfolding tagged to_float
flight_of model count = do
  mass ← marked_float (get "mass_kg" model) "mass_kg"
  flight_time ← marked_float (get "flight_time_s" model) "flight_time_s"
  battery ← marked_float (battery_energy model) "battery.energy_wh"
  airspeed ← marked_float (get "airspeed_m_s" model) "airspeed_m_s"
  climb ← marked_float (get "climb_m_s" model) "climb_m_s"
  wind ← marked_float (get "max_wind_m_s" model) "max_wind_m_s"
  ok (
      field "model" (get "name" model) (
        field "count" (num (int count)) (
          field "mass_kg" mass (
            field "max_flight_time_s" flight_time (
              field "battery_wh" battery (
                field "v_air_ms" airspeed
                  (field "v_vertical_ms" climb (field "max_wind_ms" wind end))))))))

-- The doubles 90.0, 0.02 and 0.008.
abbrev pub core_power : Fields
core_power = field "kh" (num (float (finite (pos (90 * 2 ^ 1074))))) (
    field "kv" (num (float (finite (pos (5764607523034235 * 2 ^ 1016)))))
      (field "kw" (num (float (finite (pos (1152921504606847 * 2 ^ 1017))))) end))

abbrev triple_fields : PowerTriple → Result Fields
triple_fields t = do
  kh ← to_float t.kh
  kv ← to_float t.kv
  kw ← to_float t.kw
  ok (field "kh" (num (float kh)) (field "kv" (num (float kv)) (field "kw" (num (float kw)) end)))

abbrev constant_power : Option Tagged → Result Fields
constant_power none = missing "power_coeffs"
constant_power (some _) = ok core_power

abbrev power_or_constant : Fields → Option PowerTriple → Result Fields
power_or_constant model (some t) = triple_fields t
power_or_constant model none = do t ← tagged (get "power_const_w" model); constant_power t

-- `_power_coeffs`
unfoldable pub power_coeffs_of : Fields → Result Fields
unfolding power_triple tagged to_float
power_coeffs_of model = do triple ← power_triple model; power_or_constant model triple

abbrev turn_field : Option Json → Result Fields
turn_field none = ok end
turn_field (some turn) = do
  seconds ← marked_float turn "turn_time_s"
  ok (field "turn_time_s" seconds end)

-- `_solver_cfg`
unfoldable pub solver_cfg : ℕ → Fields → Result Fields
unfolding tagged to_float
solver_cfg limit model = do
  turn ← turn_field (turn_entry model)
  ok (field "time_limit_s" (num (int (pos limit))) (field "apply_turn_to_base" (bool false) turn))

abbrev pub shared : List String
shared = "area" ∷ "criterion" ∷ "wind" ∷ "gsd_cm_per_px" ∷ "survey" ∷ []

abbrev pub shared_fields : List String → Fields → Fields → Fields
shared_fields [] scenario rest = rest
shared_fields (key ∷ keys) scenario rest =
    field key (get key scenario) (shared_fields keys scenario rest)

unfoldable pub card_payload : Fields → ℕ → Card → Aerodrome → Result Fields
unfolding flight_of optics_of power_coeffs_of solver_cfg
card_payload scenario limit card aerodrome = do
  uav ← flight_of card.model card.board.count
  camera ← optics_of card.camera
  power ← power_coeffs_of card.model
  solver ← solver_cfg limit card.model
  let takeoff =
      field "lat" (num (float aerodrome.lat)) (field "lon" (num (float aerodrome.lon)) end)
  ok (
      shared_fields shared scenario (
        field "takeoff" (obj takeoff) (
          field "uav" (obj uav) (
            field "camera" (obj camera)
              (field "power_coeffs" (obj power) (field "solver" (obj solver) end))))))

-- What the core's `InputData` makes of a payload: an input, or the places of its errors.
pub data Checked (Data : Type 0) : Type 0 where
  valid : Data → Checked Data
  invalid : List String → Checked Data

abbrev given_texts : List String → List String
given_texts [] = []
given_texts (s ∷ rest) = if s == "" then given_texts rest else s ∷ given_texts rest

abbrev or_scenario : List String → List String
or_scenario [] = "scenario" ∷ []
or_scenario (s ∷ rest) = s ∷ rest

-- `_invalid_fields`
unfoldable pub invalid_fields : List String → String
unfolding unique_limitations
invalid_fields places =
    f_string
      ("missing fields: " ∷ join ", " (or_scenario (unique_limitations (given_texts places))) ∷ [])

abbrev pub aerodrome_named : String → List Aerodrome → Option Aerodrome
aerodrome_named id [] = none
aerodrome_named id (a ∷ rest) = if a.id == id then some a else aerodrome_named id rest

-- What `_prepare` returns.
pub record Prepared (Data : Type 0) : Type 0 where
  pub built : List (Candidate Data)
  pub skips : List Skip
  pub mismatches : List SpectrumMismatch
  pub notes : List String

abbrev pub required_keys : List String
required_keys = "required_spectrum" ∷ shared ++ "aerodromes" ∷ "boards" ∷ []

abbrev pub absent : List String → Fields → List String
absent [] scenario = []
absent (key ∷ keys) scenario =
    let rest = absent keys scenario in if has key scenario then rest else key ∷ rest

abbrev is_empty_list : List String → Bool
is_empty_list [] = true
is_empty_list (_ ∷ _) = false

-- The scenario's keys, spectrum and criterion.
unfoldable pub checked_spectrum : Fields → Result String
checked_spectrum scenario = do
  require (not (has "uav_types" scenario)) value_error "uav_types is not accepted"
  require (not (has "pads" scenario)) value_error "pads is not accepted"
  let lacks = absent required_keys scenario
  require (is_empty_list lacks) value_error (f_string ("missing fields: " ∷ join ", " lacks ∷ []))
  spectrum ← checked_name (get "required_spectrum" scenario) "required_spectrum"
  require
      (is_text "min_time" (get "criterion" scenario)
        || is_text "min_flight_hours" (get "criterion" scenario))
      value_error "missing fields: criterion"
  ok spectrum

module _ (show_g12 : Float → String) {Data : Type 0} (input_data : Fields → Checked Data) where
  abbrev pub data_of : Checked Data → Result Data
  data_of (valid d) = ok d
  data_of (invalid places) = raise value_error (invalid_fields places)

  abbrev pub candidate_of : Card → Aerodrome → Data → Candidate Data
  candidate_of card aerodrome d = record {
    aerodrome_id = aerodrome.id;
    board_id = card.board.id;
    model_id = card.board.model_id;
    camera_id = card.board.camera_id;
    payload = d;
  }

  abbrev pub build_at : Fields → ℕ → Card → Option Aerodrome → Result (Candidate Data)
  build_at scenario limit card none = missing card.board.aerodrome_id
  build_at scenario limit card (some aerodrome) = do
    payload ← card_payload scenario limit card aerodrome
    d ← data_of (input_data payload)
    ok (candidate_of card aerodrome d)

  unfoldable pub build : Fields → ℕ → List Aerodrome → List Card → Result (List (Candidate Data))
  unfolding card_payload invalid_fields
  build scenario limit aerodromes [] = ok []
  build scenario limit aerodromes (card ∷ cards) = do
    candidate ← build_at scenario limit card (aerodrome_named card.board.aerodrome_id aerodromes)
    rest ← build scenario limit aerodromes cards
    ok (candidate ∷ rest)

  abbrev pub prepared_with : Sorted → List (Candidate Data) → Prepared Data
  prepared_with sorted built = record {
    built = built;
    skips = sorted.skips;
    mismatches = sorted.mismatches;
    notes = sorted.notes;
  }

  abbrev pub build_sorted :
      Fields → Json → List Aerodrome → Sorted → List Card → Result (Prepared Data)
  build_sorted scenario time_limit aerodromes sorted [] = ok (prepared_with sorted [])
  build_sorted scenario time_limit aerodromes sorted (card ∷ cards) =
      if ltb max_calls (length (card ∷ cards)) then raise value_error "at most 16 calls" else (do
        limit ← positive_int time_limit "time_limit_s"
        built ← build scenario limit aerodromes (card ∷ cards)
        ok (prepared_with sorted built))

  -- `_prepare`, with what reading the catalog gave.
  unfoldable pub prepare : Result Fields → Json → Json → Result (Prepared Data)
  unfolding checked_spectrum aerodromes_of boards_of index_rows compatibility_of sort_boards
      positive_int build
  prepare catalog time_limit (obj scenario) = do
    spectrum ← checked_spectrum scenario
    aerodromes ← aerodromes_of (get "aerodromes" scenario)
    boards ← boards_of (get "boards" scenario) aerodromes
    table ← catalog
    models ← index_rows (get "uav_models" table) "uav_models"
    cameras ← index_rows (get "cameras" table) "cameras"
    edges ← compatibility_of (get "compatibility" table) models cameras
    sorted ← sort_boards show_g12 spectrum models cameras edges boards
    build_sorted scenario time_limit aerodromes sorted sorted.cards
  prepare catalog time_limit _ = missing "scenario"
