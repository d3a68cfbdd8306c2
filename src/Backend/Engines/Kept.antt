-- ===== src/Backend/Engines/Kept.antt =====
-- What the conversion of backend/runtime_engine.py keeps of a runtime response.
use planes.Base.{
  String, ◌==◌, eq_iff, ◌≡◌, refl, subst, ◌⊎◌, inl, inr, true, false, ◌||◌, Option, none, some,
  Bool-cases,
}
use planes.Base.Result.{Error, ok, err, value_error}
use planes.Json.{null, Items, Fields, nil, cons, get, elements, of_list}
use planes.Runtime.Contract
use planes.Runtime.Contract.Responses.{plan_field, report_to_dict, artifact_items, response_to_dict}
use planes.Runtime.Contract.Replies.{IsResponse}
use planes.Backend.Models.{ComputeResponse, compute_response, to_dict, is_none, plan_json}
use planes.Backend.Engines.{to_backend_response}

of_list-elements : (xs : Items) → of_list (elements xs) ≡ xs
of_list-elements nil = refl
of_list-elements (cons x xs) = rw (of_list-elements xs) refl

-- The backend's form of a response.
abbrev pub backend_form : Contract.ComputeResponse → ComputeResponse
backend_form response = record {
  job_id = response.job_id;
  outcome = response.outcome;
  solver_report = report_to_dict response.solver_report;
  mission_plan = response.mission_plan;
  artifacts = elements (artifact_items response.artifacts);
  version = response.contract_version;
}

plan_get :
    (m : Option Fields) (key : String)
    → ("mission_plan" == key) ≡ false
    → get key (plan_field m) ≡ null
plan_get none key h = refl
plan_get (some plan) key h = rw h refl

plan_at : (m : Option Fields) → plan_json m ≡ get "mission_plan" (plan_field m)
plan_at none = refl
plan_at (some plan) = refl

same_key :
    (r : Contract.ComputeResponse) (key : String)
    → get key (to_dict (backend_form r)) ≡ get key (response_to_dict r)
unfolding to_dict response_to_dict
same_key r key = elim (Bool-cases ("mission_plan" == key)) [
  | inl here ↦
      subst (λ (k : String). get k (to_dict (backend_form r)) ≡ get k (response_to_dict r))
        ((eq_iff "mission_plan" key).0 here) (plan_at r.mission_plan)
  | inr other ↦
      rw (other, plan_get r.mission_plan key other, of_list-elements (artifact_items r.artifacts))
        refl
]

planned :
    (outcome : String) (m : Option Fields)
    → (outcome == "feasible" || is_none m) ≡ true
    → (m ≡ none) ⊎ (outcome ≡ "feasible")
planned outcome none h = inl refl
planned outcome (some plan) h = elim (Bool-cases (outcome == "feasible")) [
  | inl same ↦ inr ((eq_iff outcome "feasible").0 same)
  | inr other ↦ cc (rw other at h)
]

unplanned :
    (outcome : String) (m : Option Fields)
    → (outcome == "feasible" || is_none m) ≡ false
    → (m ≡ none) ⊎ (outcome ≡ "feasible")
    → ⊥
unplanned outcome none h e = elim (Bool-cases (outcome == "feasible")) [
  | inl same ↦ cc (rw same at h)
  | inr other ↦ cc (rw other at h)
]
unplanned outcome (some plan) h (inl e) = cc
unplanned outcome (some plan) h (inr e) = cc (rw ((eq_iff outcome "feasible").1 e) at h)

abbrev misplaced : Error
misplaced = record {
  kind = value_error;
  message = "mission_plan is only valid for a feasible outcome";
}

-- A well-formed response of the runtime becomes one of the backend exactly if it has no plan or is
-- feasible, and then its dict reads the same at every key; otherwise the conversion raises ValueError.
pub to_backend_response-Kept :
    (r : Contract.ComputeResponse)
    → IsResponse r
    → (((r.mission_plan ≡ none) ⊎ (r.outcome ≡ "feasible"))
        × ((b : ComputeResponse) × (to_backend_response r ≡ ok b)
            × ((key : String) → get key (to_dict b) ≡ get key (response_to_dict r))))
      ⊎ (((r.mission_plan ≡ none) ⊎ (r.outcome ≡ "feasible") → ⊥)
          × ((e : Error) × (to_backend_response r ≡ err e) × (e.kind ≡ value_error)))
unfolding to_backend_response compute_response
to_backend_response-Kept r h =
    elim (Bool-cases (r.outcome == "feasible" || is_none r.mission_plan)) [
      | inl fits ↦ inl (
        planned r.outcome r.mission_plan fits,
        (backend_form r, rw (h.version, h.outcome, fits) refl, same_key r),
      )
      | inr unfit ↦ inr (
        unplanned r.outcome r.mission_plan unfit,
        (misplaced, (rw (h.version, h.outcome, unfit) refl), refl),
      )
    ]
