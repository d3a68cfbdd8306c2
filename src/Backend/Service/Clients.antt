-- ===== src/Backend/Service/Clients.antt =====
-- What a submission does to the table, and what a client reads back.
use planes.Base.{
  ℕ, Bool, String, eq_refl, ◌≡◌, refl, ◌⊎◌, inl, inr, true, Option, none, some, [], ◌∷◌, ◌++◌,
  if◌then◌else◌, Bool-cases, Option-cases,
}
use planes.Base.Result.{
  Error, Result, ok, err, raise, job_not_found, result_not_ready, overflow_error, integrity_error,
  Result-cases,
}
use planes.Json.{Float, Fields}
use planes.Backend.Models.{contract_version}
use planes.Backend.Store.{
  JobState, queued, running, completed, failed, timed_out, JobRecord, Table, find, new_row,
  fits_int64, create_job,
}
use planes.Backend.Store.Invariant.{
  is_some, has_result, IsValid, In-of_find, IsConsistent-of_In, find-append,
}
use planes.Backend.ErrorCodes.Attach.Errors.{IsLongNumber, attach_classification-Fails}
use planes.Backend.Service.{
  with_state, state_text, Submission, Accepted, validate, status_view, submit_job, get_result,
  result_of, terminal_result,
}

abbrev pub row_of : Accepted → String → JobRecord
row_of a now = new_row a.job_id contract_version a.scenario a.optimization a.seed now

-- The outcome of a submission that passed the checks: the job is appended, queued, with exactly what
-- was submitted, unless its seed does not fit the column or its id is taken.
unfoldable pub submitted : Accepted → String → Table → Result Fields × Table
submitted a now rows =
    if fits_int64 a.seed
    then elim (find a.job_id rows) [
      | some _ ↦ (raise integrity_error "UNIQUE constraint failed: jobs.job_id", rows)
      | none ↦ (ok (status_view (row_of a now)), rows ++ row_of a now ∷ [])
    ]
    else (raise overflow_error "Python int too large to convert to SQLite INTEGER", rows)

-- The created job is always found again.
create_job_lem :
    (a : Accepted) (now : String) (rows : Table)
    → find a.job_id rows ≡ none
    → find a.job_id (rows ++ row_of a now ∷ []) ≡ some (row_of a now)
unfolding find
create_job_lem a now rows e = rw find-append (rw (e, eq_refl) refl)

pub submit_job_lem :
    (uuid now : String) (s : Submission) (a : Accepted) (rows : Table)
    → validate uuid s ≡ ok a
    → submit_job uuid now s rows ≡ submitted a now rows
unfolding submit_job submitted create_job
submit_job_lem uuid now s a rows h = elim (Bool-cases (fits_int64 a.seed)) [
  | inr big ↦ rw (h, big) refl
  | inl fits ↦ elim (Option-cases (find a.job_id rows)) [
    | inl e ↦ rw (h, fits, e, create_job_lem a now rows e) refl
    | inr (r, e) ↦ rw (h, fits, e) refl
  ]
]

submitted_atomic :
    (a : Accepted) (now : String) (rows : Table) (e : Error)
    → (submitted a now rows).0 ≡ err e
    → (submitted a now rows).1 ≡ rows
unfolding submitted
submitted_atomic a now rows e h = elim (Bool-cases (fits_int64 a.seed)) [
  | inr big ↦ rw big refl
  | inl fits ↦ elim (Option-cases (find a.job_id rows)) [
    | inl absent ↦ cc (rw (fits, absent) at h)
    | inr (r, taken) ↦ rw (fits, taken) refl
  ]
]

-- A submission that raises has changed nothing.
submit_job_atomic :
    (uuid now : String) (s : Submission) (rows : Table) (e : Error)
    → (submit_job uuid now s rows).0 ≡ err e
    → (submit_job uuid now s rows).1 ≡ rows
submit_job_atomic uuid now s rows e h = elim (Result-cases (validate uuid s)) [
  | inl (a, passed) ↦
      let lem = submit_job_lem uuid now s a rows passed in
      rw lem (submitted_atomic a now rows e (rw lem at h))
  | inr (x, refused) ↦ unfold submit_job in rw refused refl
]

-- The job has not ended.
abbrev pub IsOpen : JobState → Type 0
IsOpen s = (s ≡ queued) ⊎ (s ≡ running)

abbrev pub not_ready : JobState → Error
not_ready s = record { kind = result_not_ready; message = state_text s }

-- Why `get_result` raises.
pub data ResultError (id : String) (rows : Table) (e : Error) : Type 0 where
  unknown :
      find id rows ≡ none
      → e ≡ record { kind = job_not_found; message = id }
      → ResultError id rows e
  early :
      (r : JobRecord)
      → find id rows ≡ some r
      → IsOpen r.state
      → e ≡ not_ready r.state
      → ResultError id rows e
  unclassified :
      (r : JobRecord)
      → find id rows ≡ some r
      → (IsOpen r.state → ⊥)
      → IsLongNumber e
      → ResultError id rows e

module _ (is_alnum : ℕ → Bool) (parse_float : String → Float) where
  terminal_result_errors :
      (r : JobRecord) (o : Option Fields) (e : Error)
      → is_some o ≡ true
      → terminal_result is_alnum parse_float r o ≡ err e
      → IsLongNumber e
  terminal_result_errors r none e h k = cc
  terminal_result_errors r (some result) e h k =
      attach_classification-Fails is_alnum parse_float (with_state (state_text r.state) result) e k

  result_of_errors :
      (r : JobRecord) (s : JobState) (e : Error)
      → is_some r.result ≡ has_result s
      → result_of is_alnum parse_float r s ≡ err e
      → (IsOpen s × (e ≡ not_ready s)) ⊎ ((IsOpen s → ⊥) × IsLongNumber e)
  result_of_errors r queued e h k = inl (inl refl, cc)
  result_of_errors r running e h k = inl (inr refl, cc)
  result_of_errors r failed e h k = inr (
    λ waits. elim waits [ inl q ↦ cc | inr q ↦ cc ],
    attach_classification-Fails is_alnum parse_float _ e k,
  )
  result_of_errors r completed e h k =
      inr (λ waits. elim waits [ inl q ↦ cc | inr q ↦ cc ], terminal_result_errors r r.result e h k)
  result_of_errors r timed_out e h k =
      inr (λ waits. elim waits [ inl q ↦ cc | inr q ↦ cc ], terminal_result_errors r r.result e h k)

  -- On a valid table `get_result` raises only for a job that is unknown, with `JobNotFoundError`, or
  -- queued or running, with `ResultNotReadyError` and its state, or for an ended job because the
  -- classification met a number of more than 4300 digits: the error "terminal job … has no result" never
  -- occurs.
  pub get_result_errors :
      (id : String) (rows : Table) (e : Error)
      → IsValid rows
      → get_result is_alnum parse_float id rows ≡ err e
      → ResultError id rows e
  unfolding get_result
  get_result_errors id rows e h k = elim (Option-cases (find id rows)) [
    | inl absent ↦ unknown absent (same_error (rw absent at k))
    | inr (r, found) ↦
        elim (result_of_errors r r.state e
          (IsConsistent-of_In r rows h (In-of_find id rows r found)).result (rw found at k)) [
            | inl (waits, same) ↦ early r found waits same
            | inr (ended, long) ↦ unclassified r found ended long
          ]
  ]
    where
      same_error : {x : Error} → ◌≡◌ {A = Result Fields} (err x) (err e) → e ≡ x
      same_error h = cc
