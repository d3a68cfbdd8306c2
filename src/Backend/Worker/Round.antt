-- ===== src/Backend/Worker/Round.antt =====
-- One round of the worker ends the job that it claimed.
use planes.Base.{
  String, ◌==◌, eq_refl, ◌≡◌, refl, inl, inr, none, some, List, All, if◌then◌else◌, Bool-cases,
}
use planes.Base.Result.{Error, Result, ok, err, value_error}
use planes.Json.{Float, Fields}
use planes.Backend.Models.{ComputeRequest, ComputeResponse}
use planes.Backend.Store.{
  queued, running, failed, JobRecord, Table, find, update, rowcount, has_state, start, close,
  Verdict, finish, verdict_of, next_queued, claim_next_queued_job,
}
use planes.Backend.Store.Invariant.{IsValid, rowcount_lem, find-update, find-job_id}
use planes.Backend.Store.Claim.{Claimed, claim-Claimed, claim_lem, claim_none}
use planes.Backend.Store.Lifecycle.{Operation, run, claim-IsValid, IsVerdict, verdict_of-IsVerdict}
use planes.Backend.Store.History.{run-IsValid}
use planes.Backend.Worker.Interference.{Spares, run_kept}
use planes.Backend.Worker.{error_payload, settle, attempt, run_once}

-- `finish` on a running row of a valid table closes it, and returns.
finish_running :
    (id : String) (v : Verdict) (now : String) (rows : Table) (r : JobRecord)
    → IsValid rows
    → find id rows ≡ some r
    → r.state ≡ running
    → finish id v now rows ≡ (ok tt, update (has_state id running) (close v now) rows)
unfolding finish
finish_running id v now rows r h e s =
    let one : rowcount (has_state id running) rows ≡ 1 =
      rw (rowcount_lem id running rows h, e, s) refl in
    rw one refl

closed_row :
    (id : String) (v : Verdict) (now : String) (rows : Table) (r : JobRecord)
    → find id rows ≡ some r
    → r.state ≡ running
    → find id (update (has_state id running) (close v now) rows) ≡ some (close v now r)
closed_row id v now rows r e s =
    rw (find-update (has_state id running) (close v now) (λ x. refl), e)
      (rw (find-job_id id rows r e, eq_refl, s) refl)

-- The verdict that a round gives, by what its `try` block computed.
abbrev pub failure : Error → Verdict
failure e = record { state = failed; result = none; error = some (error_payload e) }

abbrev pub mismatch : Error
mismatch = record {
  kind = value_error;
  message = "engine response job_id does not match claimed job";
}

abbrev pub round_verdict : String → Result ComputeResponse → Verdict
round_verdict id (ok response) =
    if response.job_id == id then verdict_of response else failure mismatch
round_verdict id (err e) = failure e

-- The table after a round on a running job.
abbrev pub closed_table : String → Result ComputeResponse → String → Table → Table
closed_table id attempted now =
    update (has_state id running) (close (round_verdict id attempted) now)

-- A round on a job that is running raises nothing, and closes the row with that verdict.
pub settle_lem :
    (id : String) (attempted : Result ComputeResponse) (now : String) (rows : Table) (r : JobRecord)
    → IsValid rows
    → find id rows ≡ some r
    → r.state ≡ running
    → settle id attempted now rows ≡ (ok (some id), closed_table id attempted now rows)
unfolding settle
settle_lem id (err e) now rows r h f s = rw (finish_running id (failure e) now rows r h f s) refl
settle_lem id (ok response) now rows r h f s = elim (Bool-cases (response.job_id == id)) [
  | inl own ↦ rw (own, finish_running id (verdict_of response) now rows r h f s) refl
  | inr foreign ↦ rw (foreign, finish_running id (failure mismatch) now rows r h f s) refl
]

pub settle_running :
    (id : String) (attempted : Result ComputeResponse) (now : String) (rows : Table) (r : JobRecord)
    → IsValid rows
    → find id rows ≡ some r
    → r.state ≡ running
    → ((settle id attempted now rows).0 ≡ ok (some id))
      × (find id (settle id attempted now rows).1 ≡ some (close (round_verdict id attempted) now r))
settle_running id attempted now rows r h f s =
    rw (settle_lem id attempted now rows r h f s)
      (refl, closed_row id (round_verdict id attempted) now rows r f s)

pub failure-IsVerdict : (e : Error) → IsVerdict (failure e)
failure-IsVerdict e = record { terminal = refl; result = refl; error = refl }

pub round_verdict-IsVerdict :
    (id : String) (attempted : Result ComputeResponse) → IsVerdict (round_verdict id attempted)
round_verdict-IsVerdict id (err e) = failure-IsVerdict e
round_verdict-IsVerdict id (ok response) = elim (Bool-cases (response.job_id == id)) [
  | inl own ↦ rw own (verdict_of-IsVerdict response)
  | inr foreign ↦ rw foreign (failure-IsVerdict mismatch)
]

module _ (show_float : Float → String) (catalog : Result Fields)
    (engine : ComputeRequest → Result ComputeResponse) where
  -- How a round ends: the claimed job was the first queued one, the round returns its id, and the
  -- row is closed with the verdict of what the `try` block computed on the running job.
  pub record EndsJob (started finished : String) (during : List Operation) (rows : Table)
      : Type 0 where
    pub job : JobRecord
    pub claimed :
        Claimed started rows (claim_next_queued_job started rows).1 (start started job) job
    pub returned :
        (run_once show_float catalog engine started finished during rows).0 ≡ ok (some job.job_id)
    pub closed :
        find job.job_id (run_once show_float catalog engine started finished during rows).1
        ≡ some (
            close
              (round_verdict job.job_id (attempt show_float catalog engine (start started job)))
              finished
              (start started job))

  -- On a valid table with a queued job, a round claims the first one and ends it, whatever the
  -- engine returns or raises, if the transactions of other processes meanwhile do not end that job.
  pub run_once-EndsJob :
      (started finished : String) (during : List Operation) (rows : Table) (r : JobRecord)
      → IsValid rows
      → next_queued rows ≡ some r
      → All (Spares r.job_id) during
      → EndsJob started finished during rows
  unfolding run_once
  run_once-EndsJob started finished during rows r h e spared =
      let c = claim_lem started rows r h e in
      let rows₁ = update (has_state r.job_id queued) (start started) rows in
      let valid₁ : IsValid rows₁ = rw c at (claim-IsValid started rows h) in
      let k : Claimed started rows rows₁ (start started r) r = claim-Claimed started rows r h e in
      let stays =
        run_kept r.job_id (start started r) refl refl during rows₁ spared valid₁ k.stored in
      let (back, row) =
        settle_running r.job_id (attempt show_float catalog engine (start started r)) finished
          (run during rows₁) (start started r) (run-IsValid during rows₁ valid₁) stays refl in
      record { job = r; claimed = rw c k; returned = rw c back; closed = rw c row }

  -- With an empty queue a round returns nothing and leaves the table alone.
  pub run_once_idle :
      (started finished : String) (during : List Operation) (rows : Table)
      → next_queued rows ≡ none
      → run_once show_float catalog engine started finished during rows ≡ (ok none, rows)
  unfolding run_once
  run_once_idle started finished during rows e = rw (claim_none started rows e) refl
