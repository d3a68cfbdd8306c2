-- ===== src/Backend/Service/Delivery.antt =====
-- From the end of a round to the client: what `get_result` answers.
use planes.Base.{
  ℕ, Bool, true, false, ◌⊎◌, String, ◌==◌, ◌≡◌, refl, ◌||◌, inl, inr, some, if◌then◌else◌,
  Bool-cases,
}
use planes.Base.Result.{Error, Result, ok, err, Result-cases}
use planes.Json.{Float, Fields, str, obj, field, end}
use planes.Backend.Models.{ComputeResponse, to_dict}
use planes.Backend.Store.{failed, JobRecord, Table, find, verdict_of, close}
use planes.Backend.Worker.{error_payload}
use planes.Backend.Worker.Round.{round_verdict, mismatch}
use planes.Backend.ErrorCodes.Attach.{attach_classification}
use planes.Backend.ErrorCodes.Attach.Coded.{IsCoded, attach_classification-IsCoded}
use planes.Backend.ErrorCodes.Attach.Errors.{IsLongNumber, attach_classification-Fails}
use planes.Backend.Service.{get_result, with_state, optional_dict}

-- The envelope of a failed job.
abbrev pub failed_envelope : JobRecord → Fields → Fields
failed_envelope r error =
    field "contract_version" (str r.version)
      (field "job_id" (str r.job_id) (field "state" (str "failed") (field "error" (obj error) end)))

-- The answer for a response of the engine, by its outcome.
abbrev pub engine_reply : JobRecord → ComputeResponse → Fields
engine_reply r response =
    if response.outcome == "feasible" || response.outcome == "infeasible"
    then with_state "completed" (to_dict response)
    else if response.outcome == "timed_out"
    then with_state "timed_out" (to_dict response)
    else failed_envelope r (to_dict response)

-- The answer for whatever a round computed.
abbrev pub reply : JobRecord → Result ComputeResponse → Fields
reply r (ok response) =
    if response.job_id == r.job_id
    then engine_reply r response
    else failed_envelope r (error_payload mismatch)
reply r (err e) = failed_envelope r (error_payload e)

module _ (is_alnum : ℕ → Bool) (parse_float : String → Float) (now : String) (rows : Table)
    (r : JobRecord) where
  engine_answer :
      (response : ComputeResponse)
      → find r.job_id rows ≡ some (close (verdict_of response) now r)
      → get_result is_alnum parse_float r.job_id rows
        ≡ attach_classification is_alnum parse_float (engine_reply r response)
  unfolding get_result verdict_of
  engine_answer response found =
      elim (Bool-cases (response.outcome == "feasible" || response.outcome == "infeasible")) [
        | inl solved ↦ rw (found, solved) refl
        | inr unsolved ↦ elim (Bool-cases (response.outcome == "timed_out")) [
          | inl late ↦ rw (found, unsolved, late) refl
          | inr in_time ↦ rw (found, unsolved, in_time) refl
        ]
      ]

  -- For a job whose row was closed with a round's verdict, whatever that round's `try` block
  -- returned or raised, the client's result is what the classification makes of that outcome's envelope.
  pub get_result-close :
      (attempted : Result ComputeResponse)
      → find r.job_id rows ≡ some (close (round_verdict r.job_id attempted) now r)
      → get_result is_alnum parse_float r.job_id rows
        ≡ attach_classification is_alnum parse_float (reply r attempted)
  unfolding get_result
  get_result-close (err e) found = rw found refl
  get_result-close (ok response) found = elim (Bool-cases (response.job_id == r.job_id)) [
    | inl own ↦ rw own (engine_answer response (rw own at found))
    | inr foreign ↦ rw foreign (rw (rw foreign at found) refl)
  ]

-- The client's result of a failed job has a code with its two texts, and an outcome; or reading it
-- raises, because the classification met a number of more than 4300 digits.
pub failed_job-IsCoded :
    (is_alnum : ℕ → Bool) (parse_float : String → Float) (id : String) (rows : Table)
    (r : JobRecord)
    → find id rows ≡ some r
    → r.state ≡ failed
    → ((view : Fields) × (get_result is_alnum parse_float id rows ≡ ok view) × IsCoded view)
      ⊎ ((e : Error) × (get_result is_alnum parse_float id rows ≡ err e) × IsLongNumber e)
unfolding get_result
failed_job-IsCoded is_alnum parse_float id rows r found s =
    let envelope = field "contract_version" (str r.version) (
      field "job_id" (str r.job_id)
        (field "state" (str "failed") (field "error" (optional_dict r.error) end))) in
    elim (Result-cases (attach_classification is_alnum parse_float envelope)) [
      | inl (view, e) ↦ inl (
        view,
        rw (found, s) e,
        attach_classification-IsCoded is_alnum parse_float envelope view (or_true _) e,
      )
      | inr (x, e) ↦
          inr (x, rw (found, s) e, attach_classification-Fails is_alnum parse_float envelope x e)
    ]
  where
    or_true : (b : Bool) → (b || true) ≡ true
    or_true true = refl
    or_true false = refl
