-- ===== src/Backend/ErrorCodes/Attach/Errors.antt =====
-- What the classification of backend/error_codes.py raises.
use planes.Base.{
  ℕ, ◌<◌, String, ◌≡◌, inl, inr, Bool, true, false, ◌||◌, Option, none, some, List, [], ◌∷◌, All,
  ltb, ltb→lt, if◌then◌else◌, Bool-cases,
}
use planes.Base.Result.{Error, Result, ok, err, ◌>>=◌, Fails, Fails-ok, Fails-bind}
use planes.Base.Regex.{text_length, search, matches}
use planes.Json.{Float, float, Fields, bool, num, str, end, field}
use planes.Backend.ErrorCodes.Copy.{
  Code, infeasible_endurance_no_recharge, infeasible_terrain_clearance,
  infeasible_wind_exceeds_fleet,
}
use planes.Backend.ErrorCodes.Signals.{collect_signals}
use planes.Backend.ErrorCodes.Patterns.{
  uncovered_swaths, clearance_count, allow_recharge, terrain_error, strict_terrain,
  clearance_violation, safety_margin, wind_exceeds,
}
use planes.Backend.ErrorCodes.Classify.{
  Found, long_number, int_of_digits, last_group, second_last_group, third_last_group, detail,
  recharge_allowed, may_be_infeasible, is_endurance_no_recharge, count_detail, found_code,
  when_found, first_rule, rules, match_code,
}
use planes.Backend.ErrorCodes.Attach.{blob_of, classify_result, attach_classification}

-- The error of `int` for a text of more than 4300 digits.
abbrev pub IsLongNumber : Error → Type 0
IsLongNumber x = (n : ℕ) × (4300 < n) × (x ≡ long_number n)

int_of_digits-Fails : (s : String) → Fails IsLongNumber (int_of_digits s)
int_of_digits-Fails s x h = elim (Bool-cases (ltb 4300 (text_length s))) [
  | inl long ↦ (text_length s, ltb→lt 4300 (text_length s) long, long_case (rw long at h))
  | inr short ↦ cc (rw short at h)
]
  where
    long_case :
        ◌≡◌ {A = Result ℕ} (err (long_number (text_length s))) (err x)
        → x ≡ long_number (text_length s)
    long_case h = cc

count_detail-Fails :
    (key : String) (o : Option (List String)) (details : Fields)
    → Fails IsLongNumber (count_detail key o details)
count_detail-Fails key none details = Fails-ok IsLongNumber details
count_detail-Fails key (some groups) details =
    Fails-bind IsLongNumber (int_of_digits (last_group groups)) _
      (int_of_digits-Fails (last_group groups)) (λ n. Fails-ok IsLongNumber _)

first_rule-Fails :
    (all_rules : List (Result Found))
    → All (Fails IsLongNumber) all_rules
    → Fails IsLongNumber (first_rule all_rules)
first_rule-Fails [] h = Fails-ok IsLongNumber none
first_rule-Fails (ok (some f) ∷ more) h = Fails-ok IsLongNumber (some f)
first_rule-Fails (ok none ∷ more) h = first_rule-Fails more h.1
first_rule-Fails (err x ∷ more) h = h.0

when_found-Fails :
    (o : Option (List String)) (rule : List String → Result Found)
    → ((groups : List String) → Fails IsLongNumber (rule groups))
    → Fails IsLongNumber (when_found o rule)
when_found-Fails none rule h = Fails-ok IsLongNumber none
when_found-Fails (some groups) rule h = h groups

if-Fails :
    (b : Bool) (rule : Result Found)
    → Fails IsLongNumber rule
    → Fails IsLongNumber (if b then rule else ok none)
if-Fails true rule h = h
if-Fails false rule h = Fails-ok IsLongNumber none

guarded_code-Fails :
    (b : Bool) (code : Code) (details : Fields)
    → Fails IsLongNumber (if b then found_code code details else ok none)
guarded_code-Fails b code details =
    if-Fails b (found_code code details) (Fails-ok IsLongNumber (some (code, details)))

counted-Fails :
    (b : Bool) (key : String) (o : Option (List String)) (details : Fields) (code : Code)
    → Fails IsLongNumber
        (if b then (count_detail key o details >>= λ d. found_code code d) else ok none)
counted-Fails b key o details code =
    if-Fails b (count_detail key o details >>= λ d. found_code code d) (
      Fails-bind IsLongNumber (count_detail key o details) (λ d. found_code code d)
        (count_detail-Fails key o details) (λ d. Fails-ok IsLongNumber (some (code, d))))

module _ (is_alnum : ℕ → Bool) (parse_float : String → Float) where
  match_code-Fails :
      (outcome : Option String) (blob : String) (texts limitations : List String) (payload : Fields)
      → Fails IsLongNumber (match_code is_alnum parse_float outcome blob texts limitations payload)
  unfolding match_code
  match_code-Fails outcome blob texts limitations payload =
      first_rule-Fails (rules is_alnum parse_float outcome blob texts limitations payload) (
        when_found-Fails _ _ (λ g. Fails-ok IsLongNumber _),
        (
          when_found-Fails _ _ (λ g. Fails-ok IsLongNumber _),
          (
            when_found-Fails _ _ (λ g. Fails-ok IsLongNumber _),
            (
              if-Fails _ _ (Fails-ok IsLongNumber _),
              (
                when_found-Fails _ _ (λ g. Fails-ok IsLongNumber _),
                (
                  if-Fails _ _ (Fails-ok IsLongNumber _),
                  (
                    when_found-Fails _ _ (λ g. Fails-ok IsLongNumber _),
                    (
                      when_found-Fails (search is_alnum wind_exceeds blob) _ (λ g.
                          guarded_code-Fails (may_be_infeasible outcome)
                            infeasible_wind_exceeds_fleet
                            (field "wind_mps" (num (float (parse_float (third_last_group g)))) (
                              field "fleet_max_wind_mps"
                                (num (float (parse_float (second_last_group g))))
                                (field "limiting_model_id" (str (last_group g)) end)))),
                      (
                        counted-Fails
                            (is_endurance_no_recharge is_alnum parse_float outcome blob limitations)
                            "uncovered_swaths" (search is_alnum uncovered_swaths blob)
                            (field "allow_recharge"
                              (bool (
                                recharge_allowed is_alnum parse_float outcome blob texts limitations
                                  payload (search is_alnum allow_recharge blob)))
                              end)
                            infeasible_endurance_no_recharge,
                        (
                          if-Fails _ _ (Fails-ok IsLongNumber _),
                          (
                            counted-Fails
                                (matches is_alnum terrain_error blob
                                  || matches is_alnum strict_terrain blob
                                  || matches is_alnum clearance_violation blob)
                                "terrain_clearance_errors" (search is_alnum clearance_count blob)
                                (detail "safety_margin_m"
                                  (λ groups. num (float (parse_float (last_group groups))))
                                  (search is_alnum safety_margin blob)
                                  (field "error" (str "terrain_clearance_violation") end))
                                infeasible_terrain_clearance,
                            (
                              if-Fails _ _ (Fails-ok IsLongNumber _),
                              (
                                if-Fails _ _ (Fails-ok IsLongNumber _),
                                (if-Fails _ _ (Fails-ok IsLongNumber _), tt),
                              ),
                            ),
                          ),
                        ),
                      ),
                    ),
                  ),
                ),
              ),
            ),
          ),
        ),
      )

  -- The classification raises only the error of a number of more than 4300 digits.
  pub attach_classification-Fails :
      (payload : Fields) → Fails IsLongNumber (attach_classification is_alnum parse_float payload)
  unfolding attach_classification classify_result
  attach_classification-Fails payload =
      let signals = collect_signals payload in
      Fails-bind IsLongNumber _ _
        (Fails-bind IsLongNumber
          (match_code is_alnum parse_float signals.outcome (blob_of is_alnum parse_float signals)
            signals.texts signals.limitations payload)
          _
          (match_code-Fails signals.outcome (blob_of is_alnum parse_float signals) signals.texts
            signals.limitations payload)
          (λ f. Fails-ok IsLongNumber _))
        (λ c. Fails-ok IsLongNumber _)
