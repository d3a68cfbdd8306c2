-- ===== src/Backend/ErrorCodes/Classify.antt =====
-- `_match_code` of backend/error_codes.py: the rules in their order, each with its details. `float` of
-- a text of digits is an argument; `int` of one is limited to 4300 digits.
use planes.Base.{
  ℕ, ◌+◌, ◌*◌, String, ◌==◌, Bool, true, false, ◌&&◌, ◌||◌, Option, none, some, List, [], ◌∷◌, ◌++◌,
  ltb, contains, if◌then◌else◌,
}
use planes.Base.Int.{pos}
use planes.Base.Text.{f_string, strip, lower_is, lower_holds, fold_text}
use planes.Base.Decimal.{show_ℕ}
use planes.Base.Result.{Error, Result, ok, err, value_error, ◌>>=◌}
use planes.Base.Regex.{Regex, search, matches, text_length, first_of}
use planes.Json.{
  Float, int, float, Json, Fields, null, bool, num, str, arr, obj, end, field, get, has, text_items,
}
use planes.Backend.WindFilter.{truthy}
use planes.Backend.ErrorCodes.Copy.{
  Code, infeasible_endurance_no_recharge, infeasible_wind_exceeds_fleet, infeasible_no_swaths,
  infeasible_terrain_clearance, timed_out_budget, error_uav_not_in_catalog,
  error_camera_not_in_catalog, error_camera_uav_incompatible, error_missing_aerodromes,
  error_unknown_aerodrome, error_no_boards, error_model_no_endurance_or_speed,
  error_worker_exception, offline_energy_uncovered,
}
use planes.Backend.ErrorCodes.Signals.{dict_of, is_state}
use planes.Backend.ErrorCodes.Public.{is_internal_limitation, public_limitations}
use planes.Backend.ErrorCodes.Patterns.{
  digit_value, uav_not_in_catalog_live, unknown_uav, camera_not_in_catalog, unknown_camera,
  incompatible, unknown_aerodrome_pattern, model_no_endurance, wind_exceeds, uncovered_swaths,
  allow_recharge, safety_margin, clearance_count, missing_aerodromes, missing_boards, no_boards,
  no_swaths, leftover_swaths, uncovered_needs_sortie, terrain_error, strict_terrain,
  clearance_violation, budget,
}

-- The captures of a match, the latest first, as `match.group(n)` of one with one, two or three groups.
abbrev pub last_group : List String → String
last_group [] = ""
last_group (g ∷ gs) = g

abbrev pub second_last_group : List String → String
second_last_group [] = ""
second_last_group (g ∷ gs) = last_group gs

abbrev pub third_last_group : List String → String
third_last_group [] = ""
third_last_group (g ∷ gs) = second_last_group gs

-- What a rule finds: a code with its details.
abbrev pub Found : Type 0
Found = Option (Code × Fields)

-- The first rule that finds a code; an exception of a rule is not caught.
abbrev pub first_rule : List (Result Found) → Result Found
first_rule [] = ok none
first_rule (ok (some f) ∷ rules) = ok (some f)
first_rule (ok none ∷ rules) = first_rule rules
first_rule (err e ∷ rules) = err e

abbrev pub or_null : Option String → Json
or_null none = null
or_null (some s) = str s

abbrev digit_or_zero : Option ℕ → ℕ
digit_or_zero none = 0
digit_or_zero (some d) = d

-- The error of `int` for a text of that many digits.
abbrev pub long_number : ℕ → Error
long_number n = record {
  kind = value_error;
  message = f_string (
      "Exceeds the limit (4300 digits) for integer string conversion: value has "
      ∷ show_ℕ n
      ∷ " digits; use sys.set_int_max_str_digits() to increase the limit"
      ∷ []);
}

-- `int(text)` of decimal digits.
abbrev pub int_of_digits : String → Result ℕ
int_of_digits s =
    if ltb 4300 (text_length s)
    then err (long_number (text_length s))
    else ok (fold_text (λ n c. n * 10 + digit_or_zero (digit_value c)) 0 s)

abbrev pub is_outcome : String → Option String → Bool
is_outcome s none = false
is_outcome s (some t) = t == s

-- `outcome in {None, "infeasible"}`
abbrev pub may_be_infeasible : Option String → Bool
may_be_infeasible none = true
may_be_infeasible (some t) = t == "infeasible"

abbrev pub found_code : Code → Fields → Result Found
found_code code details = ok (some (code, details))

-- A rule that needs a match.
abbrev pub when_found : Option (List String) → (List String → Result Found) → Result Found
when_found none rule = ok none
when_found (some groups) rule = rule groups

-- A detail of a match, if there is one.
abbrev pub detail : String → (List String → Json) → Option (List String) → Fields → Fields
detail key value none details = details
detail key value (some groups) details = field key (value groups) details

abbrev pub count_detail : String → Option (List String) → Fields → Result Fields
count_detail key none details = ok details
count_detail key (some groups) details = do
  n ← int_of_digits (last_group groups)
  ok (field key (num (int (pos n))) details)

-- `_is_offline_energy`'s truth of a value that should be a list or a dict.
abbrev pub refuses : Json → Bool
refuses (arr xs) = truthy (arr xs)
refuses _ = false

abbrev pub refuses_nested : Json → Bool
refuses_nested (obj fs) = truthy (get "energy_refusals" fs)
refuses_nested _ = false

-- `_is_offline_energy`
unfoldable pub is_offline_energy : Fields → String → Bool
unfolding lower_holds
is_offline_energy payload blob =
    refuses (get "energy_refusals" payload)
    || refuses_nested (get "B0_no_recharge" payload)
    || lower_holds "energy_refusals" blob

abbrev pub list_detail : String → Json → Fields → Fields
list_detail key (arr xs) details = field key (arr xs) details
list_detail key _ details = details

abbrev pub dict_detail : String → Json → Fields → Fields
dict_detail key (obj fs) details = field key (obj fs) details
dict_detail key _ details = details

-- The time limit of a payload's `optimization`, or the given one.
abbrev pub time_limit_or : Fields → Fields → Fields
time_limit_or payload other =
    let optimization = dict_of (get "optimization" payload) in
    if has "time_limit_seconds" optimization
    then field "optimization.time_limit_seconds" (get "time_limit_seconds" optimization) end
    else other

abbrev pub class_names : List String
class_names = "RuntimeError" ∷ "ValueError" ∷ "Exception" ∷ []

-- The first text that is no class name.
abbrev pub error_text : List String → Option String
error_text [] = none
error_text (t ∷ ts) = if contains t class_names then error_text ts else some t

abbrev pub is_off : Option (List String) → Bool
is_off none = false
is_off (some groups) = lower_is "false" (last_group groups)

module _ (is_alnum : ℕ → Bool) (parse_float : String → Float) where
  -- `_first_matching`
  unfoldable pub first_matching : List String → Regex → Option String
  first_matching [] pattern = none
  first_matching (t ∷ ts) pattern =
      let rest = first_matching ts pattern in if matches is_alnum pattern t then some t else rest

  abbrev pub float_detail : String → Json
  float_detail s = num (float (parse_float s))

  abbrev pub any_off : List String → Bool
  any_off [] = false
  any_off (item ∷ items) = is_off (search is_alnum allow_recharge item) || any_off items

  -- `_is_endurance_no_recharge`
  unfoldable pub is_endurance_no_recharge : Option String → String → List String → Bool
  is_endurance_no_recharge outcome blob limitations =
      may_be_infeasible outcome
      && any_off (limitations ++ blob ∷ [])
      && (matches is_alnum uncovered_swaths blob
          || matches is_alnum uncovered_needs_sortie blob
          || matches is_alnum leftover_swaths blob)

  abbrev pub any_no_swaths : List String → Bool
  any_no_swaths [] = false
  any_no_swaths (item ∷ items) = matches is_alnum no_swaths (strip item) || any_no_swaths items

  module _ (outcome : Option String) (blob : String) (texts limitations : List String)
      (payload : Fields) where
    abbrev pub incompatible_rule : Result Found
    incompatible_rule = when_found (search is_alnum incompatible blob) λ groups.
        found_code error_camera_uav_incompatible (
          field "model_id" (str (last_group groups))
            (field "camera_id" (str (second_last_group groups)) end))

    abbrev pub camera_rule : Result Found
    camera_rule =
        when_found
          (first_of (search is_alnum camera_not_in_catalog blob)
            (search is_alnum unknown_camera blob))
          λ groups.
            found_code error_camera_not_in_catalog (field "camera_id" (str (last_group groups)) end)

    abbrev pub uav_rule : Result Found
    uav_rule =
        when_found
          (first_of (search is_alnum uav_not_in_catalog_live blob)
            (search is_alnum unknown_uav blob))
          λ groups.
            found_code error_uav_not_in_catalog (field "model_id" (str (last_group groups)) end)

    abbrev pub missing_aerodromes_rule : Result Found
    missing_aerodromes_rule =
        if matches is_alnum missing_aerodromes blob
        then found_code error_missing_aerodromes
            (field "error" (or_null (first_matching texts missing_aerodromes)) end)
        else ok none

    abbrev pub unknown_aerodrome_rule : Result Found
    unknown_aerodrome_rule = when_found (search is_alnum unknown_aerodrome_pattern blob) λ groups.
        found_code error_unknown_aerodrome (field "aerodrome_id" (str (last_group groups)) end)

    abbrev pub no_boards_rule : Result Found
    no_boards_rule =
        if matches is_alnum no_boards blob || matches is_alnum missing_boards blob
        then found_code error_no_boards (
            field "error"
              (or_null
                (first_of (first_matching texts no_boards) (first_matching texts missing_boards)))
              end)
        else ok none

    abbrev pub model_rule : Result Found
    model_rule = when_found (search is_alnum model_no_endurance blob) λ groups.
        found_code error_model_no_endurance_or_speed
          (field "model_id" (str (last_group groups)) end)

    abbrev pub wind_rule : Result Found
    wind_rule = when_found (search is_alnum wind_exceeds blob) λ groups.
        if may_be_infeasible outcome
        then found_code infeasible_wind_exceeds_fleet (
            field "wind_mps" (float_detail (third_last_group groups)) (
              field "fleet_max_wind_mps" (float_detail (second_last_group groups))
                (field "limiting_model_id" (str (last_group groups)) end)))
        else ok none

    abbrev pub recharge_allowed : Option (List String) → Bool
    recharge_allowed none = false
    recharge_allowed (some groups) = lower_is "true" (last_group groups)

    abbrev pub endurance_rule : Result Found
    endurance_rule =
        if is_endurance_no_recharge outcome blob limitations
        then (do
          details ← count_detail "uncovered_swaths" (search is_alnum uncovered_swaths blob) (
              field "allow_recharge" (bool (recharge_allowed (search is_alnum allow_recharge blob)))
                end)
          found_code infeasible_endurance_no_recharge details)
        else ok none

    abbrev pub no_swaths_rule : Result Found
    no_swaths_rule =
        if any_no_swaths limitations || matches is_alnum no_swaths blob
        then found_code infeasible_no_swaths (
            field "solver_report.limitations"
              (arr (text_items (public_limitations is_alnum limitations))) end)
        else ok none

    abbrev pub terrain_rule : Result Found
    terrain_rule =
        if matches is_alnum terrain_error blob
          || matches is_alnum strict_terrain blob
          || matches is_alnum clearance_violation blob
        then (do
          details ← count_detail "terrain_clearance_errors" (search is_alnum clearance_count blob) (
              detail "safety_margin_m" (λ groups. float_detail (last_group groups))
                (search is_alnum safety_margin blob)
                (field "error" (str "terrain_clearance_violation") end))
          found_code infeasible_terrain_clearance details)
        else ok none

    -- The limit of the nested error's `optimization` replaces the payload's.
    abbrev pub budget_rule : Result Found
    budget_rule =
        if is_outcome "timed_out" outcome || matches is_alnum budget blob
        then found_code timed_out_budget (
            field "error" (str "BudgetExhausted")
              (time_limit_or (dict_of (get "error" payload)) (time_limit_or payload end)))
        else ok none

    abbrev pub energy_rule : Result Found
    energy_rule =
        if is_offline_energy payload blob
        then found_code offline_energy_uncovered (
            list_detail "energy_refusals" (get "energy_refusals" payload) (
              list_detail "uncovered" (get "uncovered" payload)
                (dict_detail "E_left_Wh" (get "E_left_Wh" payload) end)))
        else ok none

    abbrev pub text_detail : Option String → Fields
    text_detail none = end
    text_detail (some t) =
        if t == "" || is_internal_limitation is_alnum t || lower_holds "traceback" t
        then end
        else field "error" (str t) end

    abbrev pub worker_rule : Result Found
    worker_rule =
        if is_outcome "error" outcome || is_state "failed" payload
        then found_code error_worker_exception (
            let rest = text_detail (error_text texts) in
            if truthy (get "job_id" payload)
            then field "job_id" (get "job_id" payload) rest
            else rest)
        else ok none

    abbrev pub rules : List (Result Found)
    rules =
        incompatible_rule ∷ camera_rule ∷ uav_rule ∷ missing_aerodromes_rule
        ∷ unknown_aerodrome_rule ∷ no_boards_rule ∷ model_rule ∷ wind_rule ∷ endurance_rule
        ∷ no_swaths_rule ∷ terrain_rule ∷ budget_rule ∷ energy_rule ∷ worker_rule ∷ []

    -- `_match_code`
    unfoldable pub match_code : Result Found
    unfolding is_endurance_no_recharge is_offline_energy first_matching
    match_code = first_rule rules
