-- ===== src/Runtime/Enumeration/Calls.antt =====
-- `run_candidates` and `select_winner` of runtime/enumeration/outer.py. The core, the readings of the
-- clock (one before each call), `float` of a text, and `with_limit`, which sets the time limit of an
-- input, are arguments.
pub mod Limits
pub mod Selection
use planes.Base.{
  ℕ, zero, suc, String, Bool, true, false, not, ◌&&◌, ◌||◌, ◌==◌, Option, none, some, List, [], ◌∷◌,
  leb, contains, if◌then◌else◌,
}
use planes.Base.Int.{ℤ, pos, negsuc, ltb_ℤ}
use planes.Base.Text.{f_string}
use planes.Base.Result.{Result, ok, raise, value_error, type_error, ◌>>=◌}
use planes.Json.{
  Float, finite, Number, int, float, Json, Fields, null, bool, num, str, arr, obj, get, has,
}
use planes.Json.Numbers.{unit, to_float, float_ltb, float_zero}
use planes.Json.Numbers.Arithmetic.{to_int, float_sub, one_float}
use planes.Runtime.Enumeration.{Skip, SpectrumMismatch, Candidate, Attempt, missing, positive_int}
use planes.Runtime.Enumeration.Admission.Cards.{Checked, Prepared, prepare}

-- `_empty_reason`
abbrev pub empty_reason : List Skip → List SpectrumMismatch → String
empty_reason [] (m ∷ ms) = "no camera covers required spectrum"
empty_reason _ _ = "no runnable board"

pub record EnumerationResult (Data : Type 0) : Type 0 where
  pub attempts : List (Attempt Data)
  pub stopped_for_deadline : Bool
  pub skips : List Skip
  pub mismatches : List SpectrumMismatch
  pub reason : Option String
  pub disclosures : List String

-- The least of a limit and an int.
abbrev pub min_limit : ℕ → ℤ → ℤ
min_limit limit z = if ltb_ℤ z (pos limit) then z else pos limit

-- The limit of the next call, or nothing when less than a second remains.
unfoldable pub call_limit : Option Float → Float → ℕ → Result (Option ℤ)
unfolding float_sub float_ltb to_int
call_limit none reading limit = ok (some (pos limit))
call_limit (some deadline) reading limit =
    let remaining = float_sub deadline reading in
    if float_ltb remaining one_float
    then ok none
    else (do z ← to_int (float remaining); ok (some (min_limit limit z)))

module _ {Data : Type 0} (with_limit : ℤ → Data → Data) (core : Data → ℤ → Result Json) (seed : ℤ)
    (time_limit : Json) (deadline : Option Float) (clock : ℕ → Float) where
  -- The attempts, and whether the loop was stopped.
  abbrev pub Calls : Type 0
  Calls = List (Attempt Data) × Bool

  abbrev pub solver_result : Json → Result Fields
  solver_result (obj fs) = ok fs
  solver_result _ = missing "solver result"

  abbrev pub attempt_of : Candidate Data → Data → Fields → Attempt Data
  attempt_of c d result = record {
    aerodrome_id = c.aerodrome_id;
    board_id = c.board_id;
    model_id = c.model_id;
    camera_id = c.camera_id;
    payload = d;
    result = result;
  }

  abbrev pub call_core : Candidate Data → ℤ → Result (Attempt Data)
  call_core c limit = do
    let d = with_limit limit c.payload
    answer ← core d seed
    result ← solver_result answer
    ok (attempt_of c d result)

  abbrev pub call_then : Candidate Data → Option ℤ → Result Calls → Result Calls
  call_then c none rest = ok ([], true)
  call_then c (some limit) rest = do
    attempt ← call_core c limit
    calls ← rest
    ok (attempt ∷ calls.0, calls.1)

  -- The loop over the admitted cards, from the call with the given number on.
  unfoldable pub run_from : ℕ → List (Candidate Data) → Result Calls
  unfolding positive_int call_limit
  run_from index [] = ok ([], false)
  run_from index (c ∷ cs) = do
    limit ← positive_int time_limit "time_limit_s"
    next ← call_limit deadline (clock index) limit
    call_then c next (run_from (suc index) cs)

  abbrev pub run_built : Prepared Data → List (Candidate Data) → Result (EnumerationResult Data)
  run_built prepared [] = ok (record {
    attempts = [];
    stopped_for_deadline = false;
    skips = prepared.skips;
    mismatches = prepared.mismatches;
    reason = some (empty_reason prepared.skips prepared.mismatches);
    disclosures = prepared.notes;
  })
  run_built prepared (c ∷ cs) = do
    calls ← run_from 0 (c ∷ cs)
    ok (record {
      attempts = calls.0;
      stopped_for_deadline = calls.1;
      skips = prepared.skips;
      mismatches = prepared.mismatches;
      reason = none;
      disclosures = prepared.notes;
    })

  unfoldable pub run_candidates :
      (Float → String)
      → (Fields → Checked Data)
      → Result Fields
      → Json
      → Result (EnumerationResult Data)
  unfolding prepare run_from
  run_candidates show_g12 input_data catalog scenario = do
    prepared ← prepare show_g12 input_data catalog time_limit scenario
    run_built prepared prepared.built

abbrev pub ok_statuses : List String
ok_statuses = "optimal" ∷ "feasible" ∷ "heuristic" ∷ []

-- `status not in _OK`: the set hashes the value.
abbrev pub is_solved : Json → Result Bool
is_solved (str s) = ok (contains s ok_statuses)
is_solved (arr _) = raise type_error "unhashable type: 'list'"
is_solved (obj _) = raise type_error "unhashable type: 'dict'"
is_solved _ = ok false

abbrev pub criterion_field : String → Result String
criterion_field criterion =
    if criterion == "min_time"
    then ok "mission_time_s"
    else if criterion == "min_flight_hours"
    then ok "total_flight_time_s"
    else missing "criterion"

pub record Winner : Type 0 where
  pub aerodrome_id : String
  pub board_id : String
  pub model_id : String
  pub camera_id : String
  pub result : Fields
  pub objective_value : Float

-- The best attempt so far, with its value.
abbrev pub Best : Type 0 → Type 0
Best Data = Option (Attempt Data × Float)

module _ (parse_float : String → Result Float) where
  -- `float(value)`
  abbrev pub float_of : Json → Result Float
  float_of (num n) = to_float n
  float_of (bool b) = ok (if b then one_float else float_zero)
  float_of (str s) = parse_float s
  float_of _ = raise type_error "float() argument must be a string or a real number"

  abbrev pub mission_value : String → Json → Result Float
  mission_value name (obj mission) =
      if has name mission
      then float_of (get name mission)
      else missing (f_string ("mission." ∷ name ∷ []))
  mission_value name _ = missing (f_string ("mission." ∷ name ∷ []))

  module _ {Data : Type 0} where
    abbrev pub better : Attempt Data → Float → Best Data → Best Data
    better attempt value none = some (attempt, value)
    better attempt value (some (best, best_value)) =
        if float_ltb value best_value then some (attempt, value) else some (best, best_value)

    abbrev pub judge_attempt : String → Attempt Data → Best Data → Bool → Result (Best Data)
    judge_attempt name attempt best false = ok best
    judge_attempt name attempt best true = do
      value ← mission_value name (get "mission" attempt.result)
      ok (better attempt value best)

    unfoldable pub best_of : String → Best Data → List (Attempt Data) → Result (Best Data)
    unfolding to_float float_ltb
    best_of name best [] = ok best
    best_of name best (attempt ∷ attempts) = do
      solved ← is_solved (get "status" attempt.result)
      next ← judge_attempt name attempt best solved
      best_of name next attempts

    abbrev pub winner_of : Best Data → Option Winner
    winner_of none = none
    winner_of (some (best, best_value)) = some (record {
      aerodrome_id = best.aerodrome_id;
      board_id = best.board_id;
      model_id = best.model_id;
      camera_id = best.camera_id;
      result = best.result;
      objective_value = best_value;
    })

    unfoldable pub select_winner : List (Attempt Data) → String → Result (Option Winner)
    unfolding best_of
    select_winner attempts criterion = do
      name ← criterion_field criterion
      best ← best_of name none attempts
      ok (winner_of best)
