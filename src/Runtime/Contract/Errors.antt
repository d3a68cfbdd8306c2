-- ===== src/Runtime/Contract/Errors.antt =====
-- Which exceptions leave the parsers of runtime/types.py.
use planes.Base.{
  String, ◌≡◌, refl, ◌⊎◌, inl, inr, Option, none, some, List, ◌==◌, contains, Bool-cases,
}
use planes.Base.Result.{
  Raises, Raises-bind, Raises-ok, Raises-require, Error, err, require, value_error, type_error,
  overflow_error, Fails, Fails-bind, Fails-ok,
}
use planes.Json.{
  Json, Items, Fields, null, bool, num, str, arr, obj, nil, cons, get, is_text, int, float,
}
use planes.Json.Numbers.{to_float, to_float-Raises, is_finite, is_negative}
use planes.Base.Text.{is_blank}
use planes.Runtime.Contract.{
  parse_request, parse_optimization, parse_seed, objective_of, placeholder_of, contract_version,
  outcomes, is_job_id, checked_dict, checked_id, checked_seconds, checked_int, checked_text,
}
use planes.Runtime.Contract.Responses.{
  outcome_of, mission_of, method_of, all_texts, texts_of_items, limitations_of, parse_report,
  parse_artifact, parse_items, parse_artifacts, parse_response,
}

-- A list or a dict, which no set can hold.
abbrev pub IsContainer : Json → Type 0
IsContainer value = ((xs : Items) × (value ≡ arr xs)) ⊎ ((fs : Fields) × (value ≡ obj fs))

-- An exception of the parser: of a value, of an outcome that is a container, or of a number that no
-- float can hold.
abbrev pub Refused : Json → Error → Type 0
Refused value e =
    (e.kind ≡ value_error)
    ⊎ (((e.kind ≡ type_error) × ((fs : Fields) × (value ≡ obj fs) × IsContainer (get "outcome" fs)))
        ⊎ (e.kind ≡ overflow_error))

dict-Raises : (m : String) (x : Json) → Raises value_error (checked_dict m x)
dict-Raises m (obj fs) e h = cc
dict-Raises m _ e h = (cc)

text-Raises : (m : String) (x : Json) → Raises value_error (checked_text m x)
text-Raises m (str s) e h = cc
text-Raises m _ e h = (cc)

int-Raises : (m : String) (x : Json) → Raises value_error (checked_int m x)
int-Raises m (num (int z)) e h = cc
int-Raises m (num (float f)) e h = (cc)
int-Raises m _ e h = (cc)

id-Raises : (m : String) (x : Json) → Raises value_error (checked_id m x)
id-Raises m (str s) e h = elim (Bool-cases (is_job_id s)) [
  | inl good ↦ cc (rw good at h)
  | inr bad ↦ (cc (rw bad at h))
]
id-Raises m _ e h = (cc)

seconds-Raises : (m : String) (x : Json) → Raises value_error (checked_seconds m x)
seconds-Raises m (num n) e h = elim (Bool-cases (is_finite n)) [
  | inr bad ↦ (cc (rw bad at h))
  | inl good ↦ elim (Bool-cases (is_negative n)) [
    | inl low ↦ (cc (rw (good, low) at h))
    | inr high ↦ cc (rw (good, high) at h)
  ]
]
seconds-Raises m _ e h = (cc)

method-Raises : (x : Json) → Raises value_error (method_of x)
method-Raises (str s) e h = elim (Bool-cases (s == "")) [
  | inl empty ↦ (cc (rw empty at h))
  | inr given ↦ cc (rw given at h)
]
method-Raises _ e h = (cc)

mission-Raises : (x : Json) → Raises value_error (mission_of x)
mission-Raises null e h = cc
mission-Raises (obj fs) e h = cc
mission-Raises _ e h = (cc)

limitations-Raises : (x : Json) → Raises value_error (limitations_of x)
limitations-Raises (arr xs) e h = texts-Raises (texts_of_items xs) e h
  where
    texts-Raises : (o : Option (List String)) → Raises value_error (all_texts o)
    texts-Raises none e h = (cc)
    texts-Raises (some texts) e h = cc
limitations-Raises _ e h = (cc)

artifact-Raises : (x : Json) → Raises value_error (parse_artifact x)
artifact-Raises x = Raises-bind _ (checked_dict _ x) _ (dict-Raises _ x) (λ fs.
    Raises-bind _ (checked_text "artifact kind and ref must be strings" (get "kind" fs)) _
      (text-Raises _ (get "kind" fs))
      (λ kind.
        Raises-bind _ (checked_text "artifact kind and ref must be strings" (get "ref" fs)) _
          (text-Raises _ (get "ref" fs)) (λ ref. Raises-ok _ _)))

items-Raises : (xs : Items) → Raises value_error (parse_items xs)
unfolding parse_items
items-Raises nil = Raises-ok _ _
items-Raises (cons x xs) =
    Raises-bind _ (parse_artifact x) _ (artifact-Raises x)
      (λ item. Raises-bind _ (parse_items xs) _ (items-Raises xs) (λ items. Raises-ok _ _))

artifacts-Raises : (x : Json) → Raises value_error (parse_artifacts x)
unfolding parse_artifacts
artifacts-Raises (arr xs) e h = items-Raises xs e h
artifacts-Raises null e h = cc
artifacts-Raises (bool b) e h = cc
artifacts-Raises (num n) e h = cc
artifacts-Raises (str s) e h = cc
artifacts-Raises (obj fs) e h = cc

abbrev Overflowed : Error → Type 0
Overflowed e = (e.kind ≡ value_error) ⊎ (e.kind ≡ overflow_error)

report-Fails : (x : Json) → Fails Overflowed (parse_report x)
unfolding parse_report
report-Fails x =
    Fails-bind _ (checked_dict _ x) _ (λ e h. inl (dict-Raises _ x e h))
      (λ fs.
        Fails-bind _ (method_of (get "method" fs)) _
          (λ e h. inl (method-Raises (get "method" fs) e h))
          (λ s.
            Fails-bind _
              (checked_text "solver_report.objective must be a string" (get "objective" fs)) _
              (λ e h.
                inl
                  (text-Raises "solver_report.objective must be a string" (get "objective" fs) e h))
              (λ o.
                Fails-bind _
                  (checked_seconds "solver_report.runtime_seconds" (get "runtime_seconds" fs)) _
                  (λ e h.
                    inl (
                      seconds-Raises "solver_report.runtime_seconds" (get "runtime_seconds" fs) e
                        h))
                  (λ n.
                    Fails-bind _
                      (checked_int "solver_report.seed must be an integer" (get "seed" fs)) _
                      (λ e h.
                        inl
                          (int-Raises "solver_report.seed must be an integer" (get "seed" fs) e h))
                      (λ z.
                        Fails-bind _ (limitations_of (get "limitations" fs)) _
                          (λ e h. inl (limitations-Raises (get "limitations" fs) e h))
                          (λ ls.
                            Fails-bind _ (to_float n) _ (λ e h. inr (to_float-Raises n e h))
                              (λ f. Fails-ok _ _)))))))

outcome-Fails :
    (x : Json)
    → Fails (λ e. (e.kind ≡ value_error) ⊎ ((e.kind ≡ type_error) × IsContainer x)) (outcome_of x)
outcome-Fails (str s) e h = elim (Bool-cases (contains s outcomes)) [
  | inl known ↦ cc (rw known at h)
  | inr bad ↦ inl (cc (rw bad at h))
]
outcome-Fails (arr xs) e h = inr (cc, inl (xs, refl))
outcome-Fails (obj fs) e h = inr (cc, inr (fs, refl))
outcome-Fails null e h = inl (cc)
outcome-Fails (bool b) e h = inl (cc)
outcome-Fails (num n) e h = inl (cc)

body-Fails : (fs : Fields) → Fails (Refused (obj fs)) (parse_response (obj fs))
unfolding parse_response
body-Fails fs =
    Fails-bind _ (require (is_text contract_version (get "contract_version" fs)) _ _) _
      (λ e h. inl (Raises-require (is_text contract_version (get "contract_version" fs)) _ _ e h))
      (λ _.
        Fails-bind _ (checked_id "response job_id is missing or unsafe" (get "job_id" fs)) _
          (λ e h. inl (id-Raises "response job_id is missing or unsafe" (get "job_id" fs) e h))
          (λ id. Fails-bind _ (outcome_of (get "outcome" fs)) _ outcome_refused (λ s.
            Fails-bind _ (mission_of (get "mission_plan" fs)) _
              (λ e h. inl (mission-Raises (get "mission_plan" fs) e h))
              (λ plan.
                Fails-bind _ (parse_report (get "solver_report" fs)) _ report_refused (λ report.
                  Fails-bind _ (parse_artifacts (get "artifacts" fs)) _
                    (λ e h. inl (artifacts-Raises (get "artifacts" fs) e h))
                    (λ items. Fails-ok _ _))))))
  where
    outcome_refused : Fails (Refused (obj fs)) (outcome_of (get "outcome" fs))
    outcome_refused e h = elim (outcome-Fails (get "outcome" fs) e h) [
      | inl v ↦ inl v
      | inr (t, c) ↦ inr (inl (t, (fs, refl, c)))
    ]

    report_refused : Fails (Refused (obj fs)) (parse_report (get "solver_report" fs))
    report_refused e h = elim (report-Fails (get "solver_report" fs) e h) [
      | inl v ↦ inl v
      | inr o ↦ inr (inr o)
    ]

-- An exception of `parse_response` is a `ValueError`, or the `TypeError` of an outcome that is a list
-- or a dict, or an `OverflowError`.
pub parse_response_errors : (j : Json) (e : Error) → parse_response j ≡ err e → Refused j e
unfolding parse_response
parse_response_errors (obj fs) e h = body-Fails fs e h
parse_response_errors null e h = inl (cc)
parse_response_errors (bool b) e h = inl (cc)
parse_response_errors (num n) e h = inl (cc)
parse_response_errors (str s) e h = inl (cc)
parse_response_errors (arr xs) e h = inl (cc)

objective-Raises : (x : Json) → Raises value_error (objective_of x)
objective-Raises (str s) e h = elim (Bool-cases (is_blank s)) [
  | inl blank ↦ cc (rw blank at h)
  | inr given ↦ cc (rw given at h)
]
objective-Raises _ e h = cc

placeholder-Raises : (x : Json) → Raises value_error (placeholder_of x)
placeholder-Raises null e h = cc
placeholder-Raises (str s) e h = cc
placeholder-Raises _ e h = cc

optimization-Raises : (x : Json) → Raises value_error (parse_optimization x)
unfolding parse_optimization
optimization-Raises x = Raises-bind _ (checked_dict _ x) _ (dict-Raises _ x) (λ fs.
    Raises-bind _ (objective_of (get "objective" fs)) _ (objective-Raises (get "objective" fs))
      (λ s.
        Raises-bind _
          (checked_seconds "optimization.time_limit_seconds" (get "time_limit_seconds" fs)) _
          (seconds-Raises "optimization.time_limit_seconds" (get "time_limit_seconds" fs))
          (λ n.
            Raises-bind _ (placeholder_of (get "placeholder_outcome" fs)) _
              (placeholder-Raises (get "placeholder_outcome" fs)) (λ p. Raises-ok _ _))))

pub parse_request-Raises : (x : Json) → Raises value_error (parse_request x)
unfolding parse_request
parse_request-Raises x = Raises-bind _ (checked_dict _ x) _ (dict-Raises _ x) (λ fs.
    Raises-bind _ (require (is_text contract_version (get "contract_version" fs)) _ _) _
      (Raises-require (is_text contract_version (get "contract_version" fs)) _ _)
      (λ _.
        Raises-bind _ (checked_id "job_id is missing or unsafe" (get "job_id" fs)) _
          (id-Raises "job_id is missing or unsafe" (get "job_id" fs))
          (λ id.
            Raises-bind _ (checked_dict "scenario must be a JSON object" (get "scenario" fs)) _
              (dict-Raises "scenario must be a JSON object" (get "scenario" fs))
              (λ scenario.
                Raises-bind _ (parse_optimization (get "optimization" fs)) _
                  (optimization-Raises (get "optimization" fs))
                  (λ optimization.
                    Raises-bind _ (parse_seed (get "seed" fs)) _
                      (int-Raises "seed must be an integer" (get "seed" fs))
                      (λ seed. Raises-ok _ _))))))
