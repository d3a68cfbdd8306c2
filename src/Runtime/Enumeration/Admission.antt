-- ===== src/Runtime/Enumeration/Admission.antt =====
-- `_prepare` of runtime/enumeration/outer.py: which board cards become calls, and the input of each.
-- The catalog is what reading its file gave. `input_data` is the core's `InputData`, which takes a
-- payload or names the fields that it refuses.
pub mod Cards
pub mod Drawn
pub mod Account
use planes.Base.{
  ℕ, zero, suc, ◌*◌, ◌^◌, String, Bool, true, false, not, ◌&&◌, ◌||◌, ◌==◌, Option, none, some,
  List, [], ◌∷◌, ◌++◌, ltb, length, contains, if◌then◌else◌,
}
use planes.Base.Int.{ℤ, pos}
use planes.Base.Text.{f_string, join}
use planes.Base.Result.{Result, ok, raise, require, value_error, ◌>>=◌, ◌>>◌}
use planes.Json.{
  Float, finite, Number, int, float, Json, Fields, null, bool, num, str, obj, end, field, get, has,
  is_text,
}
use planes.Json.Numbers.{unit, to_float}
use planes.Json.Numbers.Arithmetic.{is_integer, to_int}
use planes.Runtime.Contract.Limitations.{unique_limitations}
use planes.Runtime.Enumeration.{
  max_calls, Skip, SpectrumMismatch, Candidate, Aerodrome, Board, missing, checked_name,
  positive_int,
}
use planes.Runtime.Enumeration.Scenario.{aerodromes_of, boards_of}
use planes.Runtime.Enumeration.Catalog.{
  Rows, row_of, Edges, has_edge, index_rows, compatibility_of, spectra_of, Tagged, tagged,
  require_tagged, PowerTriple, power_triple, is_some, turn_entry, battery_energy, optics_keys,
  missing_fields,
}
use planes.Runtime.Enumeration.Notes.{catalog_notes, fixed_default_notes}

-- A card that can fly.
pub record Card : Type 0 where
  pub board : Board
  pub model : Fields
  pub camera : Fields

-- What becomes of a card, with what is said of it.
pub data CardVerdict : Type 0 where
  runnable : Card → List String → CardVerdict
  skipped : Skip → List String → CardVerdict
  mismatched : SpectrumMismatch → List String → CardVerdict

abbrev pub row_or : String → Option Fields → Result Fields
row_or message none = raise value_error message
row_or message (some row) = ok row

abbrev pub found_row : String → Rows → String → Result Fields
found_row id rows message = row_or message (row_of id rows)

-- The lists that the loop over the boards fills.
pub record Sorted : Type 0 where
  pub cards : List Card
  pub skips : List Skip
  pub mismatches : List SpectrumMismatch
  pub notes : List String

abbrev pub put : CardVerdict → Sorted → Sorted
put (runnable card said) rest = record rest {
  cards = card ∷ rest.cards;
  notes = said ++ rest.notes;
}
put (skipped skip said) rest = record rest { skips = skip ∷ rest.skips; notes = said ++ rest.notes }
put (mismatched m said) rest = record rest {
  mismatches = m ∷ rest.mismatches;
  notes = said ++ rest.notes;
}

abbrev pub judge_fields : Board → Fields → Fields → List String → List String → CardVerdict
judge_fields board model camera said [] =
    runnable (record { board = board; model = model; camera = camera })
      (said ++ fixed_default_notes board.id board.model_id board.camera_id model)
judge_fields board model camera said (key ∷ keys) =
    skipped
      (record { model_id = board.model_id; camera_id = board.camera_id; missing = key ∷ keys }) said

abbrev pub judge_card : String → Board → Fields → Fields → List String → Result CardVerdict
judge_card spectrum board model camera said =
    let spectra = spectra_of (get "spectra" camera) in
    if contains spectrum spectra
    then (do lacks ← missing_fields model camera; ok (judge_fields board model camera said lacks))
    else ok (
        mismatched
          (record {
            model_id = board.model_id;
            camera_id = board.camera_id;
            required_spectrum = spectrum;
            camera_spectra = spectra;
          })
          said)

module _ (show_g12 : Float → String) where
  -- One pass of the loop over the boards.
  unfoldable pub admit : String → Rows → Rows → Edges → Board → Result CardVerdict
  unfolding catalog_notes missing_fields
  admit spectrum models cameras edges board = do
    model ← found_row board.model_id models (f_string ("unknown uav model: " ∷ board.model_id ∷ []))
    camera ←
        found_row board.camera_id cameras (f_string ("unknown camera: " ∷ board.camera_id ∷ []))
    require (has_edge board.model_id board.camera_id edges) value_error (
        f_string
          ("camera " ∷ board.camera_id ∷ " is not compatible with model " ∷ board.model_id ∷ []))
    said ← catalog_notes show_g12 board.id board.model_id board.camera_id model camera
    judge_card spectrum board model camera said

  unfoldable pub sort_boards : String → Rows → Rows → Edges → List Board → Result Sorted
  unfolding admit
  sort_boards spectrum models cameras edges [] =
      ok (record { cards = []; skips = []; mismatches = []; notes = [] })
  sort_boards spectrum models cameras edges (board ∷ boards) = do
    verdict ← admit spectrum models cameras edges board
    rest ← sort_boards spectrum models cameras edges boards
    ok (put verdict rest)
