-- ===== src/Runtime/Enumeration.antt =====
-- runtime/enumeration/outer.py: the board cards of a scenario, checked against the fleet catalog and
-- turned into calls of the core. The types, and the checks of single values.
pub mod Scenario
pub mod Catalog
pub mod Notes
pub mod Admission
pub mod Calls
use planes.Base.{
  ℕ, zero, suc, ◌*◌, String, Bool, true, false, not, ◌&&◌, ◌==◌, Option, none, some, List, [], ◌∷◌,
  ltb, leb, eqb, contains, if◌then◌else◌,
}
use planes.Base.Int.{ℤ, pos, negsuc}
use planes.Base.Text.{f_string, join}
use planes.Base.Decimal.{show_ℕ}
use planes.Base.Result.{Result, ok, raise, value_error, ◌>>=◌}
use planes.Json.{Float, finite, Number, int, float, Json, Fields, num, str, obj}
use planes.Json.Numbers.{unit, to_float}
use planes.Json.Numbers.Arithmetic.{to_int}

abbrev pub max_aerodromes : ℕ
max_aerodromes = 4

abbrev pub max_calls : ℕ
max_calls = 16

pub record Skip : Type 0 where
  pub model_id : String
  pub camera_id : String
  pub missing : List String

pub record SpectrumMismatch : Type 0 where
  pub model_id : String
  pub camera_id : String
  pub required_spectrum : String
  pub camera_spectra : List String

-- A call to make; `Data` is the core's input.
pub record Candidate (Data : Type 0) : Type 0 where
  pub aerodrome_id : String
  pub board_id : String
  pub model_id : String
  pub camera_id : String
  pub payload : Data

pub record Attempt (Data : Type 0) : Type 0 where
  pub aerodrome_id : String
  pub board_id : String
  pub model_id : String
  pub camera_id : String
  pub payload : Data
  pub result : Fields

-- An aerodrome and a board card that were checked.
pub record Aerodrome : Type 0 where
  pub id : String
  pub lat : Float
  pub lon : Float

pub record Board : Type 0 where
  pub id : String
  pub model_id : String
  pub camera_id : String
  pub aerodrome_id : String
  pub count : ℤ

abbrev pub skip_limitation : Skip → String
skip_limitation skip = f_string (
    "skipped model "
    ∷ skip.model_id
    ∷ " camera "
    ∷ skip.camera_id
    ∷ ": missing "
    ∷ join ", " skip.missing
    ∷ [])

abbrev pub spectrum_mismatch_limitation : SpectrumMismatch → String
spectrum_mismatch_limitation m = f_string (
    "spectrum mismatch model "
    ∷ m.model_id
    ∷ " camera "
    ∷ m.camera_id
    ∷ ": required "
    ∷ m.required_spectrum
    ∷ ", camera spectra "
    ∷ join ", " m.camera_spectra
    ∷ [])

-- `raise ValueError(f"missing fields: {label}")`
abbrev pub missing {ℓ} : {A : Type ℓ} → String → Result A
missing label = raise value_error (f_string ("missing fields: " ∷ label ∷ []))

-- `f"{label}[{index}]"`
abbrev pub at_index : String → ℕ → String
at_index label index = f_string (label ∷ "[" ∷ show_ℕ index ∷ "]" ∷ [])

-- `f"{label}[{index}].{key}"`
abbrev pub key_at : String → ℕ → String → String
key_at label index key = f_string (label ∷ "[" ∷ show_ℕ index ∷ "]." ∷ key ∷ [])

-- `_text`
abbrev pub checked_name : Json → String → Result String
checked_name (str s) label = if s == "" then missing label else ok s
checked_name _ label = missing label

abbrev pub checked_row : Json → String → Result Fields
checked_row (obj fs) label = ok fs
checked_row _ label = missing label

-- `_coord`
abbrev pub checked_coord : Json → String → Result Float
checked_coord (num n) label = to_float n
checked_coord _ label = missing label

abbrev pub is_limit : ℕ → Float → Bool
is_limit n (finite (pos m)) = eqb m (n * unit)
is_limit n _ = false

abbrev pub exact_limit : Number → String → ℤ → Result ℕ
exact_limit value label (negsuc n) = missing label
exact_limit value label (pos n) =
    if leb 1 n
    then (do x ← to_float value; if is_limit n x then ok n else missing label)
    else missing label

-- `_positive_int`: a whole number from 1 on, as an int or as a float of the same value.
unfoldable pub positive_int : Json → String → Result ℕ
unfolding to_int to_float unit
positive_int (num n) label = do limit ← to_int n; exact_limit n label limit
positive_int _ label = missing label
