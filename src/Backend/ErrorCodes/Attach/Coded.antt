-- ===== src/Backend/ErrorCodes/Attach/Coded.antt =====
-- Every failure that backend/error_codes.py classifies gets a code.
use planes.Base.{
  ℕ, String, ◌≡◌, ◌≢◌, refl, ap, ◌∙◌, inl, inr, Bool, true, ◌||◌, Option, none, some, List, [], ◌∷◌,
  In,
}
use planes.Base.Result.{Result, ok, err, >>=-eq-ok, ok-injective}
use planes.Json.{Float, Fields, str, obj, get, has}
use planes.Json.Updates.{put, get-put, get-put_other, get-set_default_other, has-set_default}
use planes.Backend.ErrorCodes.Copy.{Code, code_text, message_ru, message_en}
use planes.Backend.ErrorCodes.Signals.{is_state, collect_signals}
use planes.Backend.ErrorCodes.Classify.{
  Found, is_outcome, first_rule, worker_rule, rules, match_code,
}
use planes.Backend.ErrorCodes.Attach.{
  blob_of, classify_result, code_outcome, with_code, attach_classification,
}
use planes.Backend.ErrorCodes.Attach.Shown.{classify_result-parts}

-- A rule that finds a code or raises is not passed over.
first_rule-In :
    (rule : Result Found) (all_rules : List (Result Found))
    → In rule all_rules
    → rule ≢ ok none
    → first_rule all_rules ≢ ok none
first_rule-In rule [] m h e = elim m [ ]
first_rule-In rule (ok (some f) ∷ more) m h e = cc
first_rule-In rule (err x ∷ more) m h e = cc
first_rule-In rule (ok none ∷ more) (inl same) h e = h same
first_rule-In rule (ok none ∷ more) (inr m) h e = first_rule-In rule more m h e

-- The code of a result, with its texts, and an outcome.
pub record IsCoded (shaped : Fields) : Type 0 where
  pub code : Code
  pub error_code : get "error_code" shaped ≡ str (code_text code)
  pub ru : get "message_ru" shaped ≡ str (message_ru code)
  pub en : get "message_en" shaped ≡ str (message_en code)
  pub outcome : has "outcome" shaped ≡ true

with_code-IsCoded :
    (code : Code) (details shaped : Fields) → IsCoded (with_code (some (code, details)) shaped)
with_code-IsCoded code details shaped =
    let coded = put "error_code" (str (code_text code)) shaped in
    let ru_set = put "message_ru" (str (message_ru code)) coded in
    let en_set = put "message_en" (str (message_en code)) ru_set in
    let detailed = put "details" (obj details) en_set in
    record {
      code = code;
      error_code =
          get-set_default_other "error_code" "outcome" (str (code_outcome code)) detailed refl
          ∙ get-put_other "error_code" "details" (obj details) en_set refl
          ∙ get-put_other "error_code" "message_en" (str (message_en code)) ru_set refl
          ∙ get-put_other "error_code" "message_ru" (str (message_ru code)) coded refl
          ∙ get-put "error_code" (str (code_text code)) shaped;
      ru =
          get-set_default_other "message_ru" "outcome" (str (code_outcome code)) detailed refl
          ∙ get-put_other "message_ru" "details" (obj details) en_set refl
          ∙ get-put_other "message_ru" "message_en" (str (message_en code)) ru_set refl
          ∙ get-put "message_ru" (str (message_ru code)) coded;
      en =
          get-set_default_other "message_en" "outcome" (str (code_outcome code)) detailed refl
          ∙ get-put_other "message_en" "details" (obj details) en_set refl
          ∙ get-put "message_en" (str (message_en code)) ru_set;
      outcome = has-set_default "outcome" (str (code_outcome code)) detailed;
    }

with_code-some : (found : Found) (shaped : Fields) → found ≢ none → IsCoded (with_code found shaped)
with_code-some none shaped h = absurd (h refl)
with_code-some (some (code, details)) shaped h = with_code-IsCoded code details shaped

found_something : (x : Code × Fields) → ◌≡◌ {A = Result Found} (ok (some x)) (ok none) → ⊥
found_something x e = cc

module _ (is_alnum : ℕ → Bool) (parse_float : String → Float) where
  -- The last rule catches every error and every failed job.
  match_code-some :
      (outcome : Option String) (blob : String) (texts limitations : List String) (payload : Fields)
      → (is_outcome "error" outcome || is_state "failed" payload) ≡ true
      → match_code is_alnum parse_float outcome blob texts limitations payload ≢ ok none
  unfolding match_code
  match_code-some outcome blob texts limitations payload h =
      first_rule-In (worker_rule is_alnum parse_float outcome blob texts limitations payload)
        (rules is_alnum parse_float outcome blob texts limitations payload)
        (inr (inr (inr (inr (inr (inr (inr (inr (inr (inr (inr (inr (inr (inl refl))))))))))))))
        (λ e. found_something _ (rw h at e))

  -- A classified payload of a failed job, or with the outcome "error", has a code with its two texts,
  -- and an outcome.
  pub attach_classification-IsCoded :
      (payload shaped : Fields)
      → (is_outcome "error" (collect_signals payload).outcome || is_state "failed" payload) ≡ true
      → attach_classification is_alnum parse_float payload ≡ ok shaped
      → IsCoded shaped
  unfolding attach_classification
  attach_classification-IsCoded payload shaped h e =
      let (c, k, made) = >>=-eq-ok (classify_result is_alnum parse_float payload) _ e in
      let (matched, _) = classify_result-parts is_alnum parse_float payload c k in
      rw (← ok-injective made) (
        with_code-some c.found _ (λ nothing.
          match_code-some (collect_signals payload).outcome
            (blob_of is_alnum parse_float (collect_signals payload)) (collect_signals payload).texts
            (collect_signals payload).limitations payload h (matched ∙ ap ok nothing)))
