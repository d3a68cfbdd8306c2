-- ===== src/Backend/Worker/Loop.antt =====
-- The worker's loop returns when the stop flag is set.
use planes.Base.{
  ℕ, zero, suc, String, true, false, ◌≡◌, refl, inl, inr, Option, none, some, All, Bool-cases,
  Option-cases,
}
use planes.Base.Result.{Result, ok}
use planes.Json.{Float, Fields}
use planes.Backend.Models.{ComputeRequest, ComputeResponse}
use planes.Backend.Store.{
  queued, running, JobRecord, Table, update, has_state, start, close, next_queued,
}
use planes.Backend.Store.Invariant.{IsValid, update-IsValid}
use planes.Backend.Store.Claim.{Claimed, claim-Claimed, claim_lem}
use planes.Backend.Store.Lifecycle.{run, claim-IsValid, close-IsConsistent, has_state-state}
use planes.Backend.Store.History.{run-IsValid}
use planes.Backend.Worker.Interference.{Spares, run_kept}
use planes.Backend.Worker.Round.{
  round_verdict, closed_table, settle_lem, round_verdict-IsVerdict, run_once_idle,
}
use planes.Backend.Worker.{attempt, run_once, Pass, following, sleep_unless, run_loop}

-- The flag is first set at the beginning of the given pass.
abbrev pub StopsAt : (ℕ → Pass) → ℕ → Type 0
StopsAt passes zero = (passes 0).stop ≡ true
StopsAt passes (suc m) = ((passes 0).stop ≡ false) × StopsAt (following passes) m

pub closed_table-IsValid :
    (id : String) (attempted : Result ComputeResponse) (now : String) (rows : Table)
    → IsValid rows
    → IsValid (closed_table id attempted now rows)
closed_table-IsValid id attempted now rows h =
    update-IsValid (has_state id running) (close (round_verdict id attempted) now) (λ r. refl)
      (λ r p c.
        close-IsConsistent (round_verdict id attempted) now r (round_verdict-IsVerdict id attempted)
          (has_state-state id running r p) c)
      rows h

module _ (show_float : Float → String) (catalog : Result Fields)
    (engine : ComputeRequest → Result ComputeResponse) where
  -- The table after a round that claimed the row.
  abbrev pub round_table : Pass → JobRecord → Table → Table
  round_table pass r rows =
      closed_table r.job_id (attempt show_float catalog engine (start pass.started r)) pass.finished
        (run pass.during (update (has_state r.job_id queued) (start pass.started) rows))

  pub round_table-IsValid :
      (pass : Pass) (r : JobRecord) (rows : Table)
      → IsValid rows
      → next_queued rows ≡ some r
      → IsValid (round_table pass r rows)
  round_table-IsValid pass r rows h e =
      let claimed : IsValid (update (has_state r.job_id queued) (start pass.started) rows) =
        rw (claim_lem pass.started rows r h e) at (claim-IsValid pass.started rows h) in
      closed_table-IsValid r.job_id (attempt show_float catalog engine (start pass.started r))
        pass.finished _ (run-IsValid pass.during _ claimed)

  pub run_once_lem :
      (pass : Pass) (rows : Table) (r : JobRecord)
      → IsValid rows
      → next_queued rows ≡ some r
      → All (Spares r.job_id) pass.during
      → run_once show_float catalog engine pass.started pass.finished pass.during rows
        ≡ (ok (some r.job_id), round_table pass r rows)
  unfolding run_once
  run_once_lem pass rows r h e spared =
      let rows₁ = update (has_state r.job_id queued) (start pass.started) rows in
      let c = claim_lem pass.started rows r h e in
      let valid₁ : IsValid rows₁ = rw c at (claim-IsValid pass.started rows h) in
      let k : Claimed pass.started rows rows₁ (start pass.started r) r =
        claim-Claimed pass.started rows r h e in
      let stays =
        run_kept r.job_id (start pass.started r) refl refl pass.during rows₁ spared valid₁
          k.stored in
      rw c (
        settle_lem r.job_id (attempt show_float catalog engine (start pass.started r)) pass.finished
          (run pass.during rows₁) (start pass.started r) (run-IsValid pass.during rows₁ valid₁)
          stays refl)

  -- What a pass leaves when its round raises nothing.
  pub record Passed (pass : Pass) (rows : Table) (Next : Table → Type 0) : Type 0 where
    pub job : Option String
    pub rows₁ : Table
    pub round :
        run_once show_float catalog engine pass.started pass.finished pass.during rows
        ≡ (ok job, rows₁)
    pub next : Next (sleep_unless pass job rows₁)

  -- An invariant of the passes holds when the loop returns.
  pub run_loop-Invariant :
      (P : (ℕ → Pass) → ℕ → Table → Type 0)
      → ((passes : ℕ → Pass) (m : ℕ) (rows : Table)
          → P passes (suc m) rows
          → Passed (passes 0) rows (P (following passes) m))
      → (m : ℕ) (passes : ℕ → Pass) (rows : Table) → StopsAt passes m
      → P passes m rows
      → (rows' : Table) × (run_loop show_float catalog engine passes (suc m) rows
          ≡ some (ok tt, rows'))
        × ((last : ℕ → Pass) × P last 0 rows')
  unfolding run_loop
  run_loop-Invariant P step zero passes rows stops p =
      (rows, rw (stops, run_loop) refl, (passes, p))
  run_loop-Invariant P step (suc m) passes rows stops p =
      let s = step passes m rows p in
      let (rows', e, (last, q)) =
        run_loop-Invariant P step m (following passes) (sleep_unless (passes 0) s.job s.rows₁)
          stops.1 s.next in
      (rows', rw (stops.0, s.round, run_loop) e, (last, q))

  -- While the loop runs, nobody else ends the job that a round claims.
  abbrev pub Undisturbed : (ℕ → Pass) → ℕ → Table → Type 0
  Undisturbed passes zero rows = Unit
  Undisturbed passes (suc m) rows =
      ((r : JobRecord) → next_queued rows ≡ some r → All (Spares r.job_id) (passes 0).during)
      × ((job : Option String) (rows₁ : Table)
          → run_once show_float catalog engine (passes 0).started (passes 0).finished
              (passes 0).during rows
            ≡ (ok job, rows₁)
          → Undisturbed (following passes) m (sleep_unless (passes 0) job rows₁))

  pub sleep-IsValid :
      (pass : Pass) (job : Option String) (rows : Table)
      → IsValid rows
      → IsValid (sleep_unless pass job rows)
  sleep-IsValid pass (some id) rows h = h
  sleep-IsValid pass none rows h = elim (Bool-cases pass.stop_idle) [
    | inl stopped ↦ rw stopped h
    | inr asleep ↦ rw asleep (run-IsValid pass.slept rows h)
  ]

  pass_returns :
      (passes : ℕ → Pass) (m : ℕ) (rows : Table)
      → IsValid rows × Undisturbed passes (suc m) rows
      → Passed (passes 0) rows (λ t. IsValid t × Undisturbed (following passes) m t)
  pass_returns passes m rows (h, calm) = elim (Option-cases (next_queued rows)) [
    | inl e ↦
        let idle =
          run_once_idle show_float catalog engine (passes 0).started (passes 0).finished
            (passes 0).during rows e in
        record {
          job = none;
          rows₁ = rows;
          round = idle;
          next = (sleep-IsValid (passes 0) none rows h, calm.1 none rows idle);
        }
    | inr (r, e) ↦
        let round = run_once_lem (passes 0) rows r h e (calm.0 r e) in
        record {
          job = some r.job_id;
          rows₁ = round_table (passes 0) r rows;
          round = round;
          next = (round_table-IsValid (passes 0) r rows h e, calm.1 _ _ round);
        }
  ]

  -- When the stop flag is first set at the beginning of pass m, the loop returns after those m passes
  -- without an exception, and leaves a valid table, if the table was valid and nobody else ends the
  -- jobs that its rounds claim.
  pub run_loop-returns :
      (m : ℕ) (passes : ℕ → Pass) (rows : Table)
      → IsValid rows
      → StopsAt passes m
      → Undisturbed passes m rows
      → (rows' : Table) × (run_loop show_float catalog engine passes (suc m) rows
          ≡ some (ok tt, rows'))
        × IsValid rows'
  run_loop-returns m passes rows h stops calm =
      let (rows', e, (last, valid)) =
        run_loop-Invariant (λ ps k t. IsValid t × Undisturbed ps k t) pass_returns m passes rows
          stops (h, calm) in
      (rows', e, valid.0)
