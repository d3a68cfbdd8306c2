-- ===== src/Runtime/Enumeration/Catalog.antt =====
-- The fleet catalog of runtime/enumeration/outer.py: its rows by id, the pairs of a model and a camera,
-- and the marked numbers of a row.
use planes.Base.{
  ℕ, suc, String, Bool, true, false, not, ◌&&◌, ◌||◌, ◌==◌, Option, none, some, List, [], ◌∷◌, ◌++◌,
  contains, if◌then◌else◌,
}
use planes.Base.Text.{f_string}
use planes.Base.Result.{Result, ok, raise, require, value_error, type_error, ◌>>=◌, ◌>>◌}
use planes.Json.{Number, int, float, Json, Fields, null, num, str, arr, obj, cons, get, elements}
use planes.Json.Numbers.Arithmetic.{is_integer}
use planes.Runtime.Enumeration.{missing, at_index, key_at, checked_name, checked_row}

-- The rows of a table of the catalog, in its order.
abbrev pub Rows : Type 0
Rows = List (String × Fields)

abbrev pub row_of : String → Rows → Option Fields
row_of id [] = none
row_of id ((key, row) ∷ rows) = if key == id then some row else row_of id rows

abbrev pub has_row : String → Rows → Bool
has_row id [] = false
has_row id ((key, row) ∷ rows) = key == id || has_row id rows

unfoldable pub read_rows : String → ℕ → Rows → List Json → Result Rows
read_rows label index indexed [] = ok indexed
read_rows label index indexed (item ∷ items) = do
  row ← checked_row item (at_index label index)
  id ← checked_name (get "id" row) (key_at label index "id")
  require (not (has_row id indexed)) value_error (f_string ("duplicate catalog id: " ∷ id ∷ []))
  read_rows label (suc index) (indexed ++ (id, row) ∷ []) items

-- `_index`
unfoldable pub index_rows : Json → String → Result Rows
unfolding read_rows
index_rows (arr items) label = read_rows label 0 [] (elements items)
index_rows _ label = missing label

abbrev pub Edges : Type 0
Edges = List (String × String)

abbrev pub has_edge : String → String → Edges → Bool
has_edge model camera [] = false
has_edge model camera ((m, c) ∷ edges) =
    (m == model) && (c == camera) || has_edge model camera edges

unfoldable pub read_edges : Rows → Rows → ℕ → List Json → Result Edges
read_edges models cameras index [] = ok []
read_edges models cameras index (item ∷ items) = do
  edge ← checked_row item (at_index "compatibility" index)
  model_id ← checked_name (get "uav_model_id" edge) (key_at "compatibility" index "uav_model_id")
  camera_id ← checked_name (get "camera_id" edge) (key_at "compatibility" index "camera_id")
  require (has_row model_id models) value_error
      (f_string ("unknown uav model in catalog: " ∷ model_id ∷ []))
  require (has_row camera_id cameras) value_error
      (f_string ("unknown camera in catalog: " ∷ camera_id ∷ []))
  rest ← read_edges models cameras (suc index) items
  ok ((model_id, camera_id) ∷ rest)

-- `_compatibility`, on the catalog's value of that key.
unfoldable pub compatibility_of : Json → Rows → Rows → Result Edges
unfolding read_edges
compatibility_of (arr items) models cameras = read_edges models cameras 0 (elements items)
compatibility_of _ models cameras = missing "compatibility"

abbrev pub texts_of : List Json → List String
texts_of [] = []
texts_of (str s ∷ items) = s ∷ texts_of items
texts_of (_ ∷ items) = texts_of items

-- `_spectra`, on the camera's value of that key.
abbrev pub spectra_of : Json → List String
spectra_of (arr items) = texts_of (elements items)
spectra_of _ = []

abbrev pub marks : List String
marks = "passport" ∷ "estimate" ∷ "calculation" ∷ []

-- A number with the mark of where it comes from.
abbrev pub Tagged : Type 0
Tagged = Number × String

-- `mark not in _MARKS`: the set hashes the value, so a list or a dict raises.
abbrev pub with_mark : Number → Json → Result (Option Tagged)
with_mark n (str mark) = ok (if contains mark marks then some (n, mark) else none)
with_mark n (arr _) = raise type_error "unhashable type: 'list'"
with_mark n (obj _) = raise type_error "unhashable type: 'dict'"
with_mark n _ = ok none

abbrev pub tagged_pair : Json → Json → Result (Option Tagged)
tagged_pair (num n) mark = with_mark n mark
tagged_pair _ mark = ok none

-- `_tagged`
unfoldable pub tagged : Json → Result (Option Tagged)
tagged (obj fs) = tagged_pair (get "value" fs) (get "mark" fs)
tagged _ = ok none

-- `_whole_number`
abbrev pub whole_number : Number → Bool
whole_number (int _) = true
whole_number (float f) = is_integer f

abbrev pub is_usable : Bool → Option Tagged → Bool
is_usable whole none = false
is_usable whole (some (n, mark)) = not whole || whole_number n

-- `_tagged_number`
abbrev pub tagged_number : Bool → Json → Result Bool
tagged_number whole value = do t ← tagged value; ok (is_usable whole t)

abbrev pub usable_or : Bool → String → Option Tagged → Result Tagged
usable_or whole label none = missing label
usable_or whole label (some t) = if not whole || whole_number t.0 then ok t else missing label

-- `_require_tagged`
abbrev pub require_tagged : Bool → Json → String → Result Tagged
require_tagged whole value label = do t ← tagged value; usable_or whole label t

-- `value.get(key)` where the value is a dict, and `None` otherwise.
abbrev pub dict_get : String → Json → Json
dict_get key (obj fs) = get key fs
dict_get key _ = null

abbrev pub battery_energy : Fields → Json
battery_energy model = dict_get "energy_wh" (get "battery" model)

-- The three power coefficients.
pub record PowerTriple : Type 0 where
  pub kh : Number
  pub kv : Number
  pub kw : Number

abbrev pub power_kw : Fields → Number → Number → Option Tagged → Option PowerTriple
power_kw raw kh kv none = none
power_kw raw kh kv (some (kw, mark)) = some (record { kh = kh; kv = kv; kw = kw })

abbrev pub power_kv : Fields → Number → Option Tagged → Result (Option PowerTriple)
power_kv raw kh none = ok none
power_kv raw kh (some (kv, mark)) = do t ← tagged (get "kw" raw); ok (power_kw raw kh kv t)

abbrev pub power_kh : Fields → Option Tagged → Result (Option PowerTriple)
power_kh raw none = ok none
power_kh raw (some (kh, mark)) = do t ← tagged (get "kv" raw); power_kv raw kh t

abbrev pub power_of : Json → Result (Option PowerTriple)
power_of (obj raw) = do t ← tagged (get "kh" raw); power_kh raw t
power_of _ = ok none

-- `_power_triple`: the first key without a marked number ends it.
unfoldable pub power_triple : Fields → Result (Option PowerTriple)
unfolding tagged
power_triple model = power_of (get "power_coeffs" model)

abbrev pub is_some {ℓ} : {A : Type ℓ} → Option A → Bool
is_some none = false
is_some (some _) = true

abbrev pub or_constant : Fields → Option PowerTriple → Result Bool
or_constant model (some _) = ok true
or_constant model none = do t ← tagged (get "power_const_w" model); ok (is_some t)

-- `_has_power`
unfoldable pub has_power : Fields → Result Bool
unfolding power_triple tagged
has_power model = do triple ← power_triple model; or_constant model triple

abbrev pub not_null : Json → Option Json
not_null null = none
not_null x = some x

abbrev pub first_entry : Json → Option Json
first_entry (arr (cons x xs)) = not_null x
first_entry _ = none

-- `_turn_entry`, where `None` is nothing.
abbrev pub turn_entry : Fields → Option Json
turn_entry model = first_entry (get "turn_time_s" model)

abbrev pub optics_keys : List (String × Bool)
optics_keys =
    ("sensor_width_mm", false)
    ∷ ("sensor_height_mm", false)
    ∷ ("focal_length_mm", false)
    ∷ ("image_width_px", true)
    ∷ ("image_height_px", true)
    ∷ []

-- The keys that have no usable number; a pixel count must be whole.
unfoldable pub lacking : List (String × Bool) → Fields → Result (List String)
unfolding tagged is_integer
lacking [] row = ok []
lacking ((key, whole) ∷ keys) row = do
  usable ← tagged_number whole (get key row)
  rest ← lacking keys row
  ok (if usable then rest else key ∷ rest)

abbrev pub unless : Bool → String → List String
unless given label = if given then [] else label ∷ []

abbrev pub has_name : Json → Bool
has_name (str s) = not (s == "")
has_name _ = false

abbrev pub other_flight : List (String × Bool)
other_flight =
    ("mass_kg", false)
    ∷ ("flight_time_s", false)
    ∷ ("climb_m_s", false)
    ∷ ("max_wind_m_s", false)
    ∷ []

-- `_missing_fields`
unfoldable pub missing_fields : Fields → Fields → Result (List String)
unfolding lacking tagged is_integer has_power
missing_fields model camera = do
  optics ← lacking optics_keys camera
  airspeed ← lacking (("airspeed_m_s", false) ∷ []) model
  energy ← tagged_number false (battery_energy model)
  others ← lacking other_flight model
  power ← has_power model
  ok (
      optics
      ++ airspeed
      ++ unless energy "battery.energy_wh"
      ++ others
      ++ unless power "power_coeffs"
      ++ unless (has_name (get "name" model)) "name")
