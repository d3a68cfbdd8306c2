-- ===== src/Runtime/Runner/Outcomes.antt =====
-- What `run_solver` and `execute` of runtime/runner.py answer, however the solver's process ends.
use planes.Base.{
  String, eq_iff, true, false, ◌&&◌, ◌==◌, ◌≡◌, refl, ◌⊎◌, inl, inr, Option, none, some, List,
  contains, Bool-cases,
}
use planes.Base.Int.{ℤ}
use planes.Base.Result.{Error, Result, ok, err, type_error, Result-cases}
use planes.Json.{Float, Json, Fields, null, bool, num, str, arr, obj, get, is_text}
use planes.Json.Loading.{Loaded, loaded, not_json, unloaded}
use planes.Json.Numbers.{isfinite, float_leb, float_zero}
use planes.Runtime.Contract.{
  ComputeRequest, ComputeResponse, contract_version, outcomes, parse_request, parse_request_bytes,
}
use planes.Runtime.Contract.Errors.{IsContainer, parse_request-Raises}
use planes.Runtime.Pipeline.Answers.{Unread, Answers, make_response-Answers}
use planes.Runtime.Runner.{
  Ended, terminated, exited, raised, Accepted, known_outcome, plan_of, accepted_mission,
  accepted_limitations, with_mission, with_limitations, with_method, with_report, with_outcome,
  accept_solver_stdout, wrapper_outcome, accepted_outcome, after_accept, is_zero, run_solver,
  early_outcome, early_error, named_job, run_decoded, execute,
}

-- What a response can be made of.
record IsAccepted (a : Accepted) : Type 0 where
  method : (a.method == "") ≡ false
  outcome : contains a.outcome outcomes ≡ true
  mission : (a.mission ≡ none) ⊎ (a.outcome ≡ "feasible")

-- Whatever is accepted is fit.
abbrev Fit : Option Accepted → Type 0
Fit none = Unit
Fit (some a) = IsAccepted a

abbrev Planned : String → Option (Option Fields) → Type 0
Planned outcome none = Unit
Planned outcome (some mission) = (mission ≡ none) ⊎ (outcome ≡ "feasible")

mission-Planned :
    (outcome : String) (value : Json) → Planned outcome (accepted_mission outcome value)
mission-Planned outcome value = elim (Bool-cases (outcome == "feasible")) [
  | inr other ↦ rw other (inl refl)
  | inl same ↦ rw same (planned value ((eq_iff outcome "feasible").0 same))
]
  where
    planned : (v : Json) → outcome ≡ "feasible" → Planned outcome (plan_of v)
    planned null e = inl refl
    planned (obj plan) e = inr e
    planned (bool b) e = tt
    planned (num n) e = tt
    planned (str s) e = tt
    planned (arr xs) e = tt

module _ (body : Fields) (outcome : String) (known : contains outcome outcomes ≡ true) where
  with_mission-Fit :
      (method : String) (limitations : List String) (mission : Option (Option Fields))
      → (method == "") ≡ false
      → Planned outcome mission
      → Fit (with_mission outcome method limitations mission)
  with_mission-Fit method limitations none named planned = tt
  with_mission-Fit method limitations (some mission) named planned = record {
    method = named;
    outcome = known;
    mission = planned;
  }

  with_limitations-Fit :
      (method : String) (limitations : Option (List String))
      → (method == "") ≡ false
      → Fit (with_limitations body outcome method limitations)
  with_limitations-Fit method none named = tt
  with_limitations-Fit method (some limitations) named =
      with_mission-Fit method limitations (accepted_mission outcome (get "mission_plan" body)) named
        (mission-Planned outcome (get "mission_plan" body))

  with_method-Fit : (report : Fields) (value : Json) → Fit (with_method body outcome report value)
  with_method-Fit report (str method) = elim (Bool-cases (method == "")) [
    | inl empty ↦ rw empty tt
    | inr named ↦
        rw named
          (with_limitations-Fit method (accepted_limitations (get "limitations" report)) named)
  ]
  with_method-Fit report null = tt
  with_method-Fit report (bool b) = tt
  with_method-Fit report (num n) = tt
  with_method-Fit report (arr xs) = tt
  with_method-Fit report (obj fs) = tt

  with_report-Fit : (value : Json) → Fit (with_report body outcome value)
  with_report-Fit (obj report) = with_method-Fit report (get "method" report)
  with_report-Fit null = tt
  with_report-Fit (bool b) = tt
  with_report-Fit (num n) = tt
  with_report-Fit (arr xs) = tt
  with_report-Fit (str s) = tt

-- The output names an outcome that is a list or a dict, and that exception leaves `m`.
abbrev pub Unhashable {κ} : {A : Type κ} → Loaded → Result A → Type κ
Unhashable output m =
    (body : Fields) × (e : Error) × (output ≡ loaded (obj body))
    × IsContainer (get "outcome" body)
    × (e.kind ≡ type_error)
    × (m ≡ err e)

known_outcome-cases :
    (value : Json)
    → ((o : Option String) × (known_outcome value ≡ ok o)
        × ((s : String) → o ≡ some s → contains s outcomes ≡ true))
      ⊎ (IsContainer value × ((e : Error) × (known_outcome value ≡ err e) × (e.kind ≡ type_error)))
known_outcome-cases (str s) = elim (Bool-cases (contains s outcomes)) [
  | inl known ↦ inl (some s, rw known refl, λ t e. let p : s ≡ t = cc in rw (← p) known)
  | inr bad ↦ inl (none, rw bad refl, λ t e. cc)
]
known_outcome-cases (arr xs) = inr (inl (xs, refl), (_, refl, refl))
known_outcome-cases (obj fs) = inr (inr (fs, refl), (_, refl, refl))
known_outcome-cases null = inl (none, refl, λ t e. cc)
known_outcome-cases (bool b) = inl (none, refl, λ t e. cc)
known_outcome-cases (num n) = inl (none, refl, λ t e. cc)

with_outcome-Fit :
    (body : Fields) (o : Option String)
    → ((s : String) → o ≡ some s → contains s outcomes ≡ true)
    → Fit (with_outcome body o)
with_outcome-Fit body none known = tt
with_outcome-Fit body (some s) known =
    with_report-Fit body s (known s refl) (get "solver_report" body)

-- What is wrong with an output whose reading raises.
abbrev pub Unusable {κ} : {A : Type κ} → Loaded → Result A → Type κ
Unusable output m = Unhashable output m ⊎ Unread output m

abbrev Judged : Loaded → Result (Option Accepted) → Type 0
Judged output m = ((o : Option Accepted) × (m ≡ ok o) × Fit o) ⊎ Unusable output m

body-Judged :
    (body : Fields) (request : ComputeRequest)
    → Judged (loaded (obj body)) (accept_solver_stdout (loaded (obj body)) request)
unfolding accept_solver_stdout
body-Judged body request =
    elim (Bool-cases (
      is_text contract_version (get "contract_version" body)
      && is_text request.job_id (get "job_id" body))) [
        | inr other ↦ inl (none, rw other refl, tt)
        | inl same ↦ elim (known_outcome-cases (get "outcome" body)) [
          | inl (o, e, known) ↦
              inl (with_outcome body o, rw (same, e) refl, with_outcome-Fit body o known)
          | inr (container, (x, e, k)) ↦ inr (inl (body, x, refl, container, k, rw (same, e) refl))
        ]
      ]

accept-Judged :
    (output : Loaded) (request : ComputeRequest)
    → Judged output (accept_solver_stdout output request)
unfolding accept_solver_stdout
accept-Judged not_json request = inl (none, refl, tt)
accept-Judged (unloaded e) request = inr (inr (e, refl, refl))
accept-Judged (loaded (obj body)) request = body-Judged body request
accept-Judged (loaded null) request = inl (none, refl, tt)
accept-Judged (loaded (bool b)) request = inl (none, refl, tt)
accept-Judged (loaded (num n)) request = inl (none, refl, tt)
accept-Judged (loaded (str s)) request = inl (none, refl, tt)
accept-Judged (loaded (arr xs)) request = inl (none, refl, tt)

module _ (log : String → String) (show_status : ℤ → String) where
  after_accept-Answers :
      (request : ComputeRequest) (elapsed : Float) (o : Option Accepted)
      → Fit o
      → Answers (after_accept log show_status request elapsed o)
  after_accept-Answers request elapsed none fit =
      make_response-Answers
        (wrapper_outcome log show_status request elapsed "error"
          "Solver stdout was not a feasible or infeasible ComputeResponse.")
        refl refl (inl refl)
  after_accept-Answers request elapsed (some a) fit =
      make_response-Answers (accepted_outcome log show_status request elapsed a) fit.method
        fit.outcome fit.mission

  -- How a run of the process raises: so did starting it or waiting for it, or reading its output, which
  -- it wrote with status 0.
  abbrev pub Breaks : Ended → Result ComputeResponse → Type 0
  Breaks (terminated elapsed) m = ⊥
  Breaks (raised e) m = m ≡ err e
  Breaks (exited status output elapsed) m =
      (is_zero log show_status status ≡ true) × Unusable output m

  run_solver-Answers :
      (request : ComputeRequest) (ended : Ended)
      → Answers (run_solver log show_status request ended)
        ⊎ Breaks ended (run_solver log show_status request ended)
  unfolding run_solver
  run_solver-Answers request (raised e) = inr refl
  run_solver-Answers request (terminated elapsed) = inl (
      make_response-Answers
        (wrapper_outcome log show_status request elapsed "timed_out"
          "Solver exceeded the wrapper timeout and was terminated.")
        refl refl (inl refl))
  run_solver-Answers request (exited status output elapsed) =
      elim (Bool-cases (is_zero log show_status status)) [
        | inr failed ↦ inl (
            rw failed (
              make_response-Answers (wrapper_outcome log show_status request elapsed "error" _) refl
                refl (inl refl)))
        | inl fine ↦ elim (accept-Judged output request) [
          | inl (o, e, fit) ↦ inl (rw (fine, e) (after_accept-Answers request elapsed o fit))
          | inr (inl (body, x, is, container, k, e)) ↦
              inr (fine, inl (body, x, is, container, k, rw (fine, e) refl))
          | inr (inr (x, is, e)) ↦ inr (fine, inr (x, is, rw (fine, e) refl))
        ]
      ]

  early-Answers : (job_id message : String) → Answers (early_error log show_status job_id message)
  unfolding early_error
  early-Answers job_id message =
      make_response-Answers (early_outcome log show_status job_id message) refl refl (inl refl)

  -- The ends of `execute`: an answer, or the exception of decoding the body or of the process that was
  -- run on the body's request.
  abbrev pub Ends :
      (ComputeRequest → Float → Ended) → Float → Loaded → Result ComputeResponse → Type 0
  Ends process timeout body m =
      Answers m
      ⊎ (Unread body m
          ⊎ ((request : ComputeRequest) × (parse_request_bytes body ≡ ok request)
              × Breaks (process request timeout) m))

  decoded-Ends :
      (process : ComputeRequest → Float → Ended) (timeout : Float) (body : Loaded)
      → Ends process timeout body (run_decoded log show_status process timeout body)
  unfolding parse_request_bytes
  decoded-Ends process timeout not_json = inl (early-Answers "unknown" "request is not JSON")
  decoded-Ends process timeout (unloaded e) = inr (inl (e, refl, refl))
  decoded-Ends process timeout (loaded value) = elim (Result-cases (parse_request value)) [
    | inl (request, e) ↦ elim (run_solver-Answers request (process request timeout)) [
      | inl answers ↦ inl (rw e answers)
      | inr breaks ↦ inr (inr (request, e, rw e breaks))
    ]
    | inr (x, e) ↦ inl (
        rw (e, parse_request-Raises value x e)
          (early-Answers (named_job log show_status value) x.message))
  ]

  -- `execute` answers, on every timeout and body and however the process ends, with a response that can
  -- be sent and that has a plan only if it is feasible; or it raises, because decoding the body raised
  -- an exception other than the decoder's own, or because running the process on the body's request
  -- did: starting it, encoding its input or waiting for it raised, or it ended with status 0 and its
  -- output names an outcome that is a list or a dict, or decoding the output raised such an exception
  -- too.
  pub execute-Ends :
      (process : ComputeRequest → Float → Ended) (timeout_seconds : Float) (body : Loaded)
      → Ends process timeout_seconds body (execute log show_status process timeout_seconds body)
  unfolding execute
  execute-Ends process timeout_seconds body =
      elim (Bool-cases (isfinite timeout_seconds && float_leb float_zero timeout_seconds)) [
        | inr bad ↦
            inl
              (rw bad (early-Answers "unknown" "timeout must be a non-negative number of seconds"))
        | inl good ↦ rw good (decoded-Ends process timeout_seconds body)
      ]
