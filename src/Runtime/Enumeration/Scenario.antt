-- ===== src/Runtime/Enumeration/Scenario.antt =====
-- `_aerodromes` and `_boards` of runtime/enumeration/outer.py: the lists of the scenario.
use planes.Base.{ℕ, suc, String, not, List, [], ◌∷◌, ltb, length, contains, if◌then◌else◌}
use planes.Base.Int.{ℤ, pos, ltb_ℤ}
use planes.Base.Text.{f_string}
use planes.Base.Result.{Result, ok, raise, require, value_error, ◌>>=◌, ◌>>◌}
use planes.Json.{Json, num, int, arr, get, elements}
use planes.Runtime.Enumeration.{
  max_aerodromes, Aerodrome, Board, missing, at_index, key_at, checked_name, checked_row,
  checked_coord,
}

unfoldable pub read_aerodromes : ℕ → List String → List Json → Result (List Aerodrome)
read_aerodromes index seen [] = ok []
read_aerodromes index seen (item ∷ items) = do
  row ← checked_row item (at_index "aerodromes" index)
  id ← checked_name (get "id" row) (key_at "aerodromes" index "id")
  require (not (contains id seen)) value_error (f_string ("duplicate aerodrome: " ∷ id ∷ []))
  lat ← checked_coord (get "lat" row) (key_at "aerodromes" index "lat")
  lon ← checked_coord (get "lon" row) (key_at "aerodromes" index "lon")
  rest ← read_aerodromes (suc index) (id ∷ seen) items
  ok (record { id = id; lat = lat; lon = lon } ∷ rest)

abbrev pub few_aerodromes : List Json → Result (List Aerodrome)
few_aerodromes [] = missing "aerodromes"
few_aerodromes (item ∷ items) =
    if ltb max_aerodromes (length (item ∷ items))
    then raise value_error "at most 4 aerodromes"
    else read_aerodromes 0 [] (item ∷ items)

-- `_aerodromes`
unfoldable pub aerodromes_of : Json → Result (List Aerodrome)
unfolding read_aerodromes
aerodromes_of (arr items) = few_aerodromes (elements items)
aerodromes_of _ = missing "aerodromes"

abbrev pub checked_count : Json → String → Result ℤ
checked_count (num (int z)) label = if ltb_ℤ z (pos 1) then missing label else ok z
checked_count _ label = missing label

unfoldable pub read_boards : List String → ℕ → List String → List Json → Result (List Board)
read_boards known index seen [] = ok []
read_boards known index seen (item ∷ items) = do
  row ← checked_row item (at_index "boards" index)
  id ← checked_name (get "id" row) (key_at "boards" index "id")
  require (not (contains id seen)) value_error (f_string ("duplicate board: " ∷ id ∷ []))
  model_id ← checked_name (get "model_id" row) (key_at "boards" index "model_id")
  camera_id ← checked_name (get "camera_id" row) (key_at "boards" index "camera_id")
  aerodrome_id ← checked_name (get "aerodrome_id" row) (key_at "boards" index "aerodrome_id")
  require (contains aerodrome_id known) value_error
      (f_string ("unknown aerodrome: " ∷ aerodrome_id ∷ []))
  count ← checked_count (get "count" row) (key_at "boards" index "count")
  rest ← read_boards known (suc index) (id ∷ seen) items
  ok (
      record {
        id = id;
        model_id = model_id;
        camera_id = camera_id;
        aerodrome_id = aerodrome_id;
        count = count;
      }
      ∷ rest)

abbrev pub ids_of : List Aerodrome → List String
ids_of [] = []
ids_of (a ∷ rest) = a.id ∷ ids_of rest

-- `_boards`
unfoldable pub boards_of : Json → List Aerodrome → Result (List Board)
unfolding read_boards
boards_of (arr items) aerodromes = read_boards (ids_of aerodromes) 0 [] (elements items)
boards_of _ aerodromes = missing "boards"
