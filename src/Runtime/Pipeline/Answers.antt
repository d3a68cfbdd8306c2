-- ===== src/Runtime/Pipeline/Answers.antt =====
-- What `run` of runtime/pipeline.py answers, whatever the solver does.
use planes.Base.{
  String, true, false, ◌==◌, ◌≡◌, refl, ◌⊎◌, inl, inr, none, List, [], ◌∷◌, Bool-cases, contains,
}
use planes.Base.Result.{Error, Result, ok, err, Result-cases}
use planes.Json.{Float, Json, Fields, null, bool, num, str, arr, obj}
use planes.Json.Numbers.{to_float}
use planes.Json.Loading.{Loaded, loaded, not_json, unloaded}
use planes.Runtime.Contract.{
  ComputeRequest, ComputeResponse, outcomes, parse_request, parse_request_bytes,
}
use planes.Runtime.Contract.Responses.{Outcome, make_response, made}
use planes.Runtime.Contract.Replies.{IsResponse, made-IsResponse}
use planes.Runtime.Contract.Errors.{parse_request-Raises}
use planes.Runtime.Pipeline.{
  Problem, Solution, Solved, solution, infeasible, timed_out, unexpected, pipeline_outcome,
  solution_outcome, pipeline_error, judge, judge_solution, input_outcome, is_not_implemented,
  is_value_error, input_error, after_solve, run_problem, run,
}

-- A response that can be sent, and that has a plan only if it is feasible.
pub record IsAnswer (r : ComputeResponse) : Type 0 where
  pub response : IsResponse r
  pub plan : (r.mission_plan ≡ none) ⊎ (r.outcome ≡ "feasible")

-- `m` raises nothing and is an answer.
abbrev pub Answers : Result ComputeResponse → Type 0
Answers m = (r : ComputeResponse) × (m ≡ ok r) × IsAnswer r

pub make_response-Answers :
    (o : Outcome)
    → (o.method == "") ≡ false
    → contains o.outcome outcomes ≡ true
    → (o.mission_plan ≡ none) ⊎ (o.outcome ≡ "feasible")
    → Answers (make_response o)
unfolding make_response
make_response-Answers o named known planned =
    (made o, rw known refl, record { response = made-IsResponse o named known; plan = planned })

error-Answers :
    (problem : Problem) (limitations : List String) (elapsed : Float)
    → Answers (pipeline_error problem limitations elapsed)
error-Answers problem limitations elapsed =
    make_response-Answers (pipeline_outcome problem "error" limitations elapsed) refl refl
      (inl refl)

input_error-Answers :
    (value : Json) (message : String) → Answers (input_error (loaded value) message)
unfolding input_error
input_error-Answers value message =
    make_response-Answers (input_outcome (loaded value) message) refl refl (inl refl)

not_json-Answers : (message : String) → Answers (input_error not_json message)
unfolding input_error
not_json-Answers message =
    make_response-Answers (input_outcome not_json message) refl refl (inl refl)

-- Reading the body raised another exception than the decoder's, and it leaves `m`.
abbrev pub Unread {κ} : {A : Type κ} → Loaded → Result A → Type κ
Unread body m = (e : Error) × (body ≡ unloaded e) × (m ≡ err e)

abbrev malformed : List String
malformed = "solver returned a malformed Solution" ∷ []

solution-Answers :
    (problem : Problem) (s : Solution) (elapsed : Float) (plan : Json)
    → Answers (judge_solution problem s elapsed plan)
solution-Answers problem s elapsed (obj plan) = elim (Bool-cases (s.method == "")) [
  | inl empty ↦ rw empty (error-Answers problem malformed elapsed)
  | inr named ↦
      rw named
        (make_response-Answers (solution_outcome problem s plan elapsed) named refl (inr refl))
]
solution-Answers problem s elapsed null = error-Answers problem malformed elapsed
solution-Answers problem s elapsed (bool b) = error-Answers problem malformed elapsed
solution-Answers problem s elapsed (num n) = error-Answers problem malformed elapsed
solution-Answers problem s elapsed (str x) = error-Answers problem malformed elapsed
solution-Answers problem s elapsed (arr xs) = error-Answers problem malformed elapsed

judge-Answers :
    (problem : Problem) (result : Solved) (elapsed : Float) → Answers (judge problem result elapsed)
unfolding judge
judge-Answers problem (solution s) elapsed = solution-Answers problem s elapsed s.mission_plan
judge-Answers problem (infeasible limitations) elapsed =
    make_response-Answers (pipeline_outcome problem "infeasible" limitations elapsed) refl refl
      (inl refl)
judge-Answers problem (timed_out limitations) elapsed =
    make_response-Answers (pipeline_outcome problem "timed_out" limitations elapsed) refl refl
      (inl refl)
judge-Answers problem unexpected elapsed =
    error-Answers problem ("solver returned an unexpected result" ∷ []) elapsed

module _ (solve : Problem → Float → Result Solved)
    (limitation_lines : Fields → List String → List String) (after : Float → Float)
    (elapsed : Float) where
  after_solve-Answers :
      (problem : Problem) (result : Result Solved)
      → Answers (after_solve solve limitation_lines after elapsed problem result)
  after_solve-Answers problem (ok result) = judge-Answers problem result elapsed
  after_solve-Answers problem (err e) = elim (Bool-cases (is_not_implemented e.kind)) [
    | inl missing ↦
        rw missing (error-Answers problem ("solver body is not implemented" ∷ []) elapsed)
    | inr failed ↦ rw failed (error-Answers problem _ elapsed)
  ]

  -- The one way in which `run` raises: the time limit of the parsed request is no float.
  abbrev pub LimitOverflows : Loaded → Type 0
  LimitOverflows body =
      (request : ComputeRequest) × (e : Error) × (parse_request_bytes body ≡ ok request)
      × (to_float request.optimization.time_limit_seconds ≡ err e)
      × (run solve limitation_lines after elapsed body ≡ err e)

  parsed-Answers :
      (body : Loaded) (request : ComputeRequest)
      → parse_request_bytes body ≡ ok request
      → Answers (run solve limitation_lines after elapsed body) ⊎ LimitOverflows body
  unfolding run run_problem
  parsed-Answers body request parsed =
      elim (Result-cases (to_float request.optimization.time_limit_seconds)) [
        | inl (seconds, finite) ↦
            let problem : Problem = record {
              job_id = request.job_id;
              scenario = request.scenario;
              objective = request.optimization.objective;
              seed = request.seed;
              time_limit_seconds = request.optimization.time_limit_seconds;
            } in
            inl (rw (parsed, finite) (after_solve-Answers problem (solve problem (after seconds))))
        | inr (e, big) ↦ inr (request, e, parsed, big, rw (parsed, big) refl)
      ]

  -- For every body, whatever the solver returns or raises and whatever the clock shows, `run` answers
  -- with a response that can be sent and that has a plan only if it is feasible; or the body is a
  -- request whose time limit no float can hold, and that exception leaves it; or decoding the body
  -- raised an exception other than the decoder's own, and that one leaves it.
  pub run-Answers :
      (body : Loaded)
      → Answers (run solve limitation_lines after elapsed body)
        ⊎ (LimitOverflows body ⊎ Unread body (run solve limitation_lines after elapsed body))
  unfolding run parse_request_bytes input_error
  run-Answers not_json = inl (not_json-Answers "request is not JSON")
  run-Answers (unloaded e) = elim (Bool-cases (is_value_error e.kind)) [
    | inl value ↦ inr (inr (e, refl, rw value refl))
    | inr other ↦ inr (inr (e, refl, rw other refl))
  ]
  run-Answers (loaded value) = elim (Result-cases (parse_request value)) [
    | inl (request, parsed) ↦ elim (parsed-Answers (loaded value) request parsed) [
      | inl answers ↦ inl answers
      | inr overflows ↦ inr (inl overflows)
    ]
    | inr (e, bad) ↦
        inl (rw (bad, parse_request-Raises value e bad) (input_error-Answers value e.message))
  ]
