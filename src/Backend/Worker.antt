-- ===== src/Backend/Worker.antt =====
-- backend/worker.py: one round of the worker and the loop. The engine is the port of
-- backend/engine.py, so it is an argument, as are the clock's readings and what other processes do
-- to the table while the engine runs.
pub mod Round
pub mod Pool
pub mod Interference
pub mod Loop
pub mod Ahead
pub mod Drain
use planes.Base.{
  ℕ, zero, suc, String, Bool, true, false, Option, none, some, List, [], ◌∷◌, if◌then◌else◌,
}
use planes.Base.Result.{Error, Result, ok, err, kind_name, ◌>>=◌}
use planes.Json.{Float, Fields, str, end, field}
use planes.Backend.Models.{ComputeRequest, ComputeResponse, compute_request}
use planes.Backend.Store.{
  JobRecord, Table, claim_next_queued_job, finish_with_response, mark_failed,
}
use planes.Backend.Store.Lifecycle.{Operation, run}
use planes.Backend.WindFilter.{refuse_if_wind_exceeds_fleet}

-- `_error_payload`
unfoldable pub error_payload : Error → Fields
error_payload e =
    field "type" (str (kind_name e.kind))
      (field "message" (str e.message) (field "source" (str "worker") end))

-- The end of a round that failed: an exception of `mark_failed` itself leaves `run_once`.
unfoldable pub fail_job : String → Error → String → Table → Result (Option String) × Table
unfolding error_payload mark_failed
fail_job id e now rows =
    let (r, rows') = mark_failed id (error_payload e) now rows in (r >>= λ _. ok (some id), rows')

abbrev after_finish : String → String → Result (Unit {0}) × Table → Result (Option String) × Table
after_finish id now (ok _, rows) = (ok (some id), rows)
after_finish id now (err e, rows) = fail_job id e now rows

-- The end of a round, by what the `try` block computed.
unfoldable pub settle :
    String → Result ComputeResponse → String → Table → Result (Option String) × Table
unfolding fail_job finish_with_response
settle id (ok response) now rows = after_finish id now (finish_with_response id response now rows)
settle id (err e) now rows = fail_job id e now rows

module _ (show_float : Float → String) (catalog : Result Fields)
    (engine : ComputeRequest → Result ComputeResponse) where
  abbrev solve_unless : ComputeRequest → Option ComputeResponse → Result ComputeResponse
  solve_unless request (some refusal) = ok refusal
  solve_unless request none = engine request

  -- The `try` block up to the response.
  unfoldable pub attempt : JobRecord → Result ComputeResponse
  unfolding compute_request refuse_if_wind_exceeds_fleet
  attempt job = do
    request ← compute_request job.job_id job.scenario job.optimization job.seed job.version
    refused ← refuse_if_wind_exceeds_fleet show_float request catalog
    solve_unless request refused

  abbrev work : String → List Operation → Option JobRecord × Table → Result (Option String) × Table
  work finished during (none, rows) = (ok none, rows)
  work finished during (some job, rows) = settle job.job_id (attempt job) finished (run during rows)

  -- `run_once`: the claim at one reading of the clock, the end at another, and between them the
  -- transactions of other processes.
  unfoldable pub run_once :
      String → String → List Operation → Table → Result (Option String) × Table
  unfolding claim_next_queued_job run attempt settle
  run_once started finished during rows = work finished during (claim_next_queued_job started rows)

-- What happens around one pass through the loop: whether the stop flag is set when the pass begins and
-- when its round found no job, the clock's readings, and the transactions of other processes, during
-- the round and during the sleep.
pub record Pass : Type 0 where
  pub stop : Bool
  pub started : String
  pub finished : String
  pub during : List Operation
  pub stop_idle : Bool
  pub slept : List Operation

abbrev pub following : (ℕ → Pass) → ℕ → Pass
following passes n = passes (suc n)

-- The table after the sleep, if the round found no job and the flag is not set.
abbrev pub sleep_unless : Pass → Option String → Table → Table
sleep_unless pass (some _) rows = rows
sleep_unless pass none rows = if pass.stop_idle then rows else run pass.slept rows

-- An exception of a round leaves the loop.
abbrev pub after_round :
    (Option String → Table → Option (Result (Unit {0}) × Table))
    → Result (Option String) × Table
    → Option (Result (Unit {0}) × Table)
after_round go (err e, rows) = some (err e, rows)
after_round go (ok job, rows) = go job rows

module _ (show_float : Float → String) (catalog : Result Fields)
    (engine : ComputeRequest → Result ComputeResponse) where
  -- `run_loop`, for at most the given number of passes.
  unfoldable pub run_loop : (ℕ → Pass) → ℕ → Table → Option (Result (Unit {0}) × Table)
  unfolding run_once run
  run_loop passes zero rows = none
  run_loop passes (suc fuel) rows = elim (passes 0).stop [
    | true ↦ some (ok tt, rows)
    | false ↦
        after_round (λ job t. run_loop (following passes) fuel (sleep_unless (passes 0) job t))
          (run_once show_float catalog engine (passes 0).started (passes 0).finished
            (passes 0).during rows)
  ]
