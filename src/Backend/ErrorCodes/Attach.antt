-- ===== src/Backend/ErrorCodes/Attach.antt =====
-- `classify_result` and `attach_classification` of backend/error_codes.py. The payload is a value, so
-- its deep copy is itself.
pub mod Shown
pub mod Coded
pub mod Errors
use planes.Base.{
  ℕ, String, ◌==◌, Bool, true, false, Option, none, some, List, [], ◌∷◌, ◌++◌, if◌then◌else◌,
}
use planes.Base.Text.{join, strip_prefix}
use planes.Base.Result.{Result, ok, ◌>>=◌}
use planes.Json.{Float, Json, Fields, str, arr, obj, end, field, has, text_items}
use planes.Json.Updates.{put, set_default, on_key}
use planes.Backend.ErrorCodes.Copy.{
  Code, code_text, message_ru, message_en, offline_energy_uncovered,
}
use planes.Backend.ErrorCodes.Signals.{Signals, collect_signals}
use planes.Backend.ErrorCodes.Public.{public_limitations}
use planes.Backend.ErrorCodes.Classify.{Found, match_code}

-- The code, if there is one, with its details. Its messages are those of `_COPY`.
pub record ClassifiedOutcome : Type 0 where
  pub found : Found
  pub public : List String

module _ (is_alnum : ℕ → Bool) (parse_float : String → Float) where
  abbrev pub blob_of : Signals → String
  blob_of signals = join "\n" (signals.texts ++ signals.limitations)

  unfoldable pub classify_result : Fields → Result ClassifiedOutcome
  unfolding collect_signals public_limitations match_code
  classify_result payload = do
    let signals = collect_signals payload
    found ←
        match_code is_alnum parse_float signals.outcome (blob_of signals) signals.texts
          signals.limitations payload
    ok (record { found = found; public = public_limitations is_alnum signals.limitations })

-- `_rewrite_report`
abbrev pub rewrite_report : List String → Json → Json
rewrite_report public (obj report) = obj (
    put "unique_limitations" (arr (text_items public))
      (put "limitations" (arr (text_items public)) report))
rewrite_report public other = other

abbrev pub default_code : Found → Fields → Fields
default_code none error = error
default_code (some (code, details)) error =
    set_default "message_ru" (str (message_ru code))
      (set_default "error_code" (str (code_text code)) error)

abbrev pub shape_error : ClassifiedOutcome → Json → Json
shape_error c (obj error) =
    obj (default_code c.found (on_key "solver_report" (rewrite_report c.public) error))
shape_error c other = other

abbrev pub is_prefix : String → String → Bool
is_prefix p s = elim (strip_prefix p s) [ none ↦ false | some _ ↦ true ]

-- The outcome that a code stands for.
unfoldable pub code_outcome : Code → String
unfolding strip_prefix
code_outcome code =
    if is_prefix "INFEASIBLE_" (code_text code)
    then "infeasible"
    else if is_prefix "TIMED_OUT_" (code_text code)
    then "timed_out"
    else if code_text code == code_text offline_energy_uncovered
    then "infeasible"
    else "error"

abbrev pub with_code : Found → Fields → Fields
with_code none shaped = shaped
with_code (some (code, details)) shaped = set_default "outcome" (str (code_outcome code)) (
    put "details" (obj details) (
      put "message_en" (str (message_en code)) (
        put "message_ru" (str (message_ru code)) (put "error_code" (str (code_text code)) shaped))))

-- The payload with its reports rewritten and the code attached.
abbrev pub shape : Fields → ClassifiedOutcome → Fields
shape payload c =
    with_code c.found
      (on_key "error" (shape_error c) (on_key "solver_report" (rewrite_report c.public) payload))

module _ (is_alnum : ℕ → Bool) (parse_float : String → Float) where
  unfoldable pub attach_classification : Fields → Result Fields
  unfolding classify_result code_outcome
  attach_classification payload = do
    classified ← classify_result is_alnum parse_float payload
    ok (shape payload classified)
