-- ===== src/Backend/ErrorCodes/Attach/Shown.antt =====
-- Which limitations the classified result of backend/error_codes.py shows.
use planes.Base.{ℕ, String, ◌==◌, ◌≡◌, refl, sym, ◌∙◌, ap, Bool, false, none, some, List}
use planes.Base.Result.{ok, >>=-eq-ok, ok-injective}
use planes.Json.{Float, Json, Fields, arr, obj, str, get, text_items}
use planes.Json.Updates.{
  put, set_default, on_key, get-put, get-put_other, get-set_default_other, get-on_key,
  get-on_key_other,
}
use planes.Backend.ErrorCodes.Copy.{code_text, message_ru}
use planes.Backend.ErrorCodes.Signals.{collect_signals}
use planes.Backend.ErrorCodes.Public.Visible.{ShowsPublic, public_limitations-ShowsPublic}
use planes.Backend.ErrorCodes.Public.{public_limitations}
use planes.Backend.ErrorCodes.Classify.{Found, match_code}
use planes.Backend.ErrorCodes.Attach.{
  ClassifiedOutcome, blob_of, classify_result, rewrite_report, default_code, shape_error, with_code,
  shape, attach_classification,
}

-- A report, before and after: its limitations are the given texts.
abbrev pub Reports : List String → Json → Json → Type 0
Reports texts before after =
    (report : Fields)
    → before ≡ obj report
    → (report' : Fields) × (after ≡ obj report')
      × (get "limitations" report' ≡ arr (text_items texts))
      × (get "unique_limitations" report' ≡ arr (text_items texts))

rewrite_report-Reports :
    (texts : List String) (before after : Json)
    → after ≡ rewrite_report texts before
    → Reports texts before after
rewrite_report-Reports texts before after e report h =
    let inner = put "limitations" (arr (text_items texts)) report in
    (
      put "unique_limitations" (arr (text_items texts)) inner,
      rw h at e,
      get-put_other "limitations" "unique_limitations" (arr (text_items texts)) inner refl
          ∙ get-put "limitations" (arr (text_items texts)) report,
      get-put "unique_limitations" (arr (text_items texts)) inner,
    )

-- Attaching a code changes neither report.
with_code-get :
    (key : String) (found : Found) (shaped : Fields)
    → ("outcome" == key) ≡ false
    → ("details" == key) ≡ false
    → ("message_en" == key) ≡ false
    → ("message_ru" == key) ≡ false
    → ("error_code" == key) ≡ false
    → get key (with_code found shaped) ≡ get key shaped
with_code-get key none shaped o d e r c = refl
with_code-get key (some (code, details)) shaped o d e r c =
    get-set_default_other key "outcome" _ _ o
    ∙ get-put_other key "details" _ _ d
    ∙ get-put_other key "message_en" _ _ e
    ∙ get-put_other key "message_ru" _ _ r
    ∙ get-put_other key "error_code" _ _ c

default_code-get :
    (found : Found) (error : Fields)
    → get "solver_report" (default_code found error) ≡ get "solver_report" error
default_code-get none error = refl
default_code-get (some (code, details)) error =
    let coded = set_default "error_code" (str (code_text code)) error in
    get-set_default_other "solver_report" "message_ru" (str (message_ru code)) coded refl
    ∙ get-set_default_other "solver_report" "error_code" (str (code_text code)) error refl

module _ (payload : Fields) (c : ClassifiedOutcome) where
  shape-report :
      get "solver_report" (shape payload c) ≡ rewrite_report c.public (get "solver_report" payload)
  shape-report =
      with_code-get "solver_report" c.found _ refl refl refl refl refl
      ∙ get-on_key_other "solver_report" "error" (shape_error c)
          (on_key "solver_report" (rewrite_report c.public) payload) refl
      ∙ get-on_key "solver_report" (rewrite_report c.public) payload refl

  shape-error : get "error" (shape payload c) ≡ shape_error c (get "error" payload)
  shape-error =
      with_code-get "error" c.found _ refl refl refl refl refl
      ∙ get-on_key "error" (shape_error c)
          (on_key "solver_report" (rewrite_report c.public) payload) refl
      ∙ ap (shape_error c)
          (get-on_key_other "error" "solver_report" (rewrite_report c.public) payload refl)

-- What a classification is made of.
pub classify_result-parts :
    (is_alnum : ℕ → Bool) (parse_float : String → Float) (payload : Fields) (c : ClassifiedOutcome)
    → classify_result is_alnum parse_float payload ≡ ok c
    → (match_code is_alnum parse_float
          (collect_signals payload).outcome
          (blob_of is_alnum parse_float (collect_signals payload))
          (collect_signals payload).texts
          (collect_signals payload).limitations
          payload
        ≡ ok c.found)
      × (c.public ≡ public_limitations is_alnum (collect_signals payload).limitations)
unfolding classify_result
classify_result-parts is_alnum parse_float payload c h =
    let signals = collect_signals payload in
    let (found, e, k) =
      >>=-eq-ok
        (match_code is_alnum parse_float signals.outcome (blob_of is_alnum parse_float signals)
          signals.texts signals.limitations payload)
        _ h in
    let made : record { found = found; public = public_limitations is_alnum signals.limitations }
        ≡ c =
      ok-injective k in
    (
      e ∙ ap ok (ap (λ (x : ClassifiedOutcome). x.found) made),
      sym (ap (λ (x : ClassifiedOutcome). x.public) made),
    )

-- When a payload is classified, the limitations that its report and its nested error's report show are
-- the same texts: distinct, and exactly those of its signals, stripped, that are neither blank nor
-- internal.
pub attach_classification-ShowsPublic :
    (is_alnum : ℕ → Bool) (parse_float : String → Float) (payload shaped : Fields)
    → attach_classification is_alnum parse_float payload ≡ ok shaped
    → (texts : List String) × ShowsPublic is_alnum (collect_signals payload).limitations texts
      × Reports texts (get "solver_report" payload) (get "solver_report" shaped)
      × ((error : Fields)
          → get "error" payload ≡ obj error
          → (error' : Fields) × (get "error" shaped ≡ obj error')
            × Reports texts (get "solver_report" error) (get "solver_report" error'))
unfolding attach_classification classify_result
attach_classification-ShowsPublic is_alnum parse_float payload shaped h =
    let (c, e, k) = >>=-eq-ok (classify_result is_alnum parse_float payload) _ h in
    let made : shape payload c ≡ shaped = ok-injective k in
    let texts : c.public ≡ public_limitations is_alnum (collect_signals payload).limitations =
      (classify_result-parts is_alnum parse_float payload c e).1 in
    (
      c.public,
      rw texts (public_limitations-ShowsPublic is_alnum (collect_signals payload).limitations),
      rewrite_report-Reports c.public (get "solver_report" payload) (get "solver_report" shaped)
          (rw (← made) (shape-report payload c)),
      λ error g. nested_report c shaped made error g,
    )
  where
    nested_report :
        (c : ClassifiedOutcome) (shaped : Fields)
        → shape payload c ≡ shaped
        → (error : Fields) → get "error" payload ≡ obj error
        → (error' : Fields) × (get "error" shaped ≡ obj error')
          × Reports c.public (get "solver_report" error) (get "solver_report" error')
    nested_report c shaped made error g =
        let inner = on_key "solver_report" (rewrite_report c.public) error in
        (
          default_code c.found inner,
          rw (← made, shape-error payload c, g) refl,
          rewrite_report-Reports c.public (get "solver_report" error) _ (
              default_code-get c.found inner
              ∙ get-on_key "solver_report" (rewrite_report c.public) error refl),
        )
