-- ===== src/Runtime/Enumeration/Notes.antt =====
-- `_catalog_notes` and `_fixed_default_notes` of runtime/enumeration/outer.py: what is said of the
-- numbers of a card that come from no passport. `show_g12` is `format(number, ".12g")`.
use planes.Base.{String, ◌==◌, Option, none, some, List, [], ◌∷◌, ◌++◌, if◌then◌else◌}
use planes.Base.Text.{f_string}
use planes.Base.Decimal.{show_ℤ}
use planes.Base.Result.{Result, ok, ◌>>=◌}
use planes.Json.{Float, Number, float, Json, Fields, obj, get}
use planes.Json.Numbers.{to_float}
use planes.Json.Numbers.Arithmetic.{is_integer, to_int}
use planes.Runtime.Enumeration.Catalog.{
  Tagged, tagged, battery_energy, power_triple, PowerTriple, turn_entry,
}

-- `_note_prefix`
abbrev pub note_prefix : String → String → String → String
note_prefix board_id model_id camera_id =
    f_string ("non-passport board " ∷ board_id ∷ " model " ∷ model_id ∷ " camera " ∷ camera_id ∷ [])

abbrev pub model_quantities : List (String × String)
model_quantities =
    ("mass_kg", "kg")
    ∷ ("airspeed_m_s", "m/s")
    ∷ ("climb_m_s", "m/s")
    ∷ ("max_wind_m_s", "m/s")
    ∷ ("flight_time_s", "s")
    ∷ []

abbrev pub camera_quantities : List (String × String)
camera_quantities =
    ("sensor_width_mm", "mm")
    ∷ ("sensor_height_mm", "mm")
    ∷ ("focal_length_mm", "mm")
    ∷ ("image_width_px", "px")
    ∷ ("image_height_px", "px")
    ∷ ("pixel_pitch_um", "um")
    ∷ []

module _ (show_g12 : Float → String) where
  abbrev float_text : Float → Result String
  float_text number =
      if is_integer number
      then (do whole ← to_int (float number); ok (show_ℤ whole))
      else ok (show_g12 number)

  -- `_format_number`
  unfoldable pub format_number : Number → Result String
  unfolding to_float is_integer to_int show_ℤ
  format_number value = do number ← to_float value; float_text number

  abbrev pub tagged_note : String → String → String → Option Tagged → Result (List String)
  tagged_note prefix name unit_text none = ok []
  tagged_note prefix name unit_text (some (value, mark)) = if mark == "passport" then ok [] else (do
    text ← format_number value
    ok (f_string (prefix ∷ ": " ∷ name ∷ "=" ∷ text ∷ unit_text ∷ " (" ∷ mark ∷ ")" ∷ []) ∷ []))

  -- `_quantity_note`
  unfoldable pub quantity_note : String → String → Json → String → Result (List String)
  unfolding tagged format_number
  quantity_note prefix name raw unit_name = do
    t ← tagged raw
    tagged_note prefix name (if unit_name == "" then "" else f_string (" " ∷ unit_name ∷ [])) t

  unfoldable pub quantity_notes : String → List (String × String) → Fields → Result (List String)
  unfolding quantity_note
  quantity_notes prefix [] row = ok []
  quantity_notes prefix ((key, unit_name) ∷ quantities) row = do
    note ← quantity_note prefix key (get key row) unit_name
    rest ← quantity_notes prefix quantities row
    ok (note ++ rest)

  abbrev pub power_notes : String → Json → Result (List String)
  power_notes prefix (obj raw) = do
    kh ← quantity_note prefix "power_coeffs.kh" (get "kh" raw) ""
    kv ← quantity_note prefix "power_coeffs.kv" (get "kv" raw) ""
    kw ← quantity_note prefix "power_coeffs.kw" (get "kw" raw) ""
    ok (kh ++ kv ++ kw)
  power_notes prefix _ = ok []

  abbrev pub turn_notes : String → Option Json → Result (List String)
  turn_notes prefix none = ok []
  turn_notes prefix (some turn) = quantity_note prefix "turn_time_s" turn "s"

  abbrev constant_text : String → Number → String → Result (List String)
  constant_text prefix value mark = do
    text ← format_number value
    ok (
        f_string (
          prefix ∷ ": power coefficients sent to the core are kh/kv/kw 90 / 0.02 / 0.008 "
          ∷ "because it cannot accept constant " ∷ text ∷ " W (" ∷ mark ∷ ")" ∷ [])
        ∷ [])

  abbrev unless_triple : String → Number → String → Option PowerTriple → Result (List String)
  unless_triple prefix value mark (some _) = ok []
  unless_triple prefix value mark none = constant_text prefix value mark

  abbrev pub constant_notes : String → Fields → Option Tagged → Result (List String)
  constant_notes prefix model none = ok []
  constant_notes prefix model (some (value, mark)) = do
    triple ← power_triple model
    unless_triple prefix value mark triple

  -- `_catalog_notes`. The rows are those found under the two ids.
  unfoldable pub catalog_notes : String → String → String → Fields → Fields → Result (List String)
  unfolding quantity_note quantity_notes tagged power_triple
  catalog_notes board_id model_id camera_id model camera = do
    let prefix = note_prefix board_id model_id camera_id
    numbers ← quantity_notes prefix model_quantities model
    energy ← quantity_note prefix "battery.energy_wh" (battery_energy model) "Wh"
    optics ← quantity_notes prefix camera_quantities camera
    power ← power_notes prefix (get "power_coeffs" model)
    turn ← turn_notes prefix (turn_entry model)
    constant ← tagged (get "power_const_w" model)
    instead ← constant_notes prefix model constant
    ok (numbers ++ energy ++ optics ++ power ++ turn ++ instead)

abbrev turn_default : String → Option Json → List String
turn_default prefix (some _) = []
turn_default prefix none = f_string (prefix ∷ ": turn_time_s=5 s is a fixed core default" ∷ []) ∷ []

-- `_fixed_default_notes`
abbrev pub fixed_default_notes : String → String → String → Fields → List String
fixed_default_notes board_id model_id camera_id model =
    let prefix = note_prefix board_id model_id camera_id in
    f_string (prefix ∷ ": apply_turn_to_base=false is a fixed core default" ∷ [])
    ∷ turn_default prefix (turn_entry model)
