-- ===== src/Backend/Tests/Codes.antt =====
-- Classified results.
use planes.Base.{◌⊎◌, String, ◌≡◌, refl, some, List, [], ◌∷◌}
use planes.Base.Text.{strip_left, strip_right}
use planes.Base.Regex.{search_from, search}
use planes.Base.Result.{Error, ok, err, value_error}
use planes.Json.{Fields, str, arr, obj, end, field, get, text_items}
use planes.Backend.ErrorCodes.Signals.{collect_signals}
use planes.Backend.ErrorCodes.Copy.{message_ru, message_en, error_no_boards}
use planes.Backend.ErrorCodes.Patterns.{incompatible}
use planes.Backend.ErrorCodes.Public.Visible.{ShowsPublic}
use planes.Backend.ErrorCodes.Attach.{attach_classification}
use planes.Backend.ErrorCodes.Attach.Shown.{Reports, attach_classification-ShowsPublic}
use planes.Backend.Tests.Data.{ascii_alnum, no_floats, first}
use planes.Backend.ErrorCodes.Attach.Coded.{IsCoded}
use planes.Backend.ErrorCodes.Attach.Errors.{IsLongNumber}
use planes.Backend.Store.{Table, find, close}
use planes.Backend.Worker.Round.{failure}
use planes.Backend.Service.{get_result}
use planes.Backend.Service.Delivery.{failed_job-IsCoded}

incompatible_found :
    search ascii_alnum incompatible "Camera x1 is not compatible with model m2, sorry"
    ≡ some ("m2," ∷ "x1" ∷ [])
unfolding search_from
incompatible_found = refl

abbrev report : Fields
report =
    field "limitations" (arr (text_items (" Traceback (x)" ∷ " allow_recharge=false" ∷ []))) end

abbrev failed_payload : Fields
failed_payload = field "state" (str "failed") (
    field "error"
      (obj (
        field "message" (str "no boards")
          (field "type" (str "ValueError") (field "solver_report" (obj report) end))))
      end)

abbrev public_texts : List String
public_texts = "allow_recharge=false" ∷ "no boards" ∷ "ValueError" ∷ []

abbrev shown_report : Fields
shown_report =
    field "limitations" (arr (text_items public_texts))
      (field "unique_limitations" (arr (text_items public_texts)) end)

abbrev shown_error : Fields
shown_error = field "message" (str "no boards") (
    field "type" (str "ValueError") (
      field "solver_report" (obj shown_report) (
        field "error_code" (str "ERROR_NO_BOARDS")
          (field "message_ru" (str (message_ru error_no_boards)) end))))

abbrev shaped : Fields
shaped = field "state" (str "failed") (
    field "error" (obj shown_error) (
      field "error_code" (str "ERROR_NO_BOARDS") (
        field "message_ru" (str (message_ru error_no_boards)) (
          field "message_en" (str (message_en error_no_boards)) (
            field "details" (obj (field "error" (str "no boards") end))
              (field "outcome" (str "error") end))))))

shaped_lem : attach_classification ascii_alnum no_floats failed_payload ≡ ok shaped
unfolding attach_classification search_from strip_right strip_left
shaped_lem = refl

attach_classification-ShowsPublic_example :
    (texts : List String) × ShowsPublic ascii_alnum
      (collect_signals failed_payload).limitations
      texts
    × Reports texts (get "solver_report" failed_payload) (get "solver_report" shaped)
    × ((error : Fields)
        → get "error" failed_payload ≡ obj error
        → (error' : Fields) × (get "error" shaped ≡ obj error')
          × Reports texts (get "solver_report" error) (get "solver_report" error'))
attach_classification-ShowsPublic_example =
    attach_classification-ShowsPublic ascii_alnum no_floats failed_payload shaped shaped_lem

-- The job "a", failed.
abbrev failed_table : Table
failed_table =
    close (failure (record { kind = value_error; message = "no boards" })) "t3" first ∷ []

failed_job-IsCoded_example :
    ((view : Fields) × (get_result ascii_alnum no_floats "a" failed_table ≡ ok view) × IsCoded view)
    ⊎ ((e : Error) × (get_result ascii_alnum no_floats "a" failed_table ≡ err e) × IsLongNumber e)
unfolding find
failed_job-IsCoded_example = failed_job-IsCoded ascii_alnum no_floats "a" failed_table _ refl refl
