-- ===== src/Backend/Worker/Drain.antt =====
-- The worker's loop ends a queued job.
use planes.Base.{
  ℕ, suc, ◌≤◌, String, true, false, ◌==◌, eq_iff, ◌≡◌, refl, ◌⊎◌, inl, inr, Option, none, some,
  arith, In, All, Bool-cases, Option-cases,
}
use planes.Base.Result.{Result, ok}
use planes.Json.{Float, Fields}
use planes.Backend.Models.{ComputeRequest, ComputeResponse}
use planes.Backend.Store.{
  queued, running, JobRecord, Table, find, update, has_state, before, start, close, Verdict,
  next_queued,
}
use planes.Backend.Store.Invariant.{IsValid, is_terminal, In-of_find, find_of_In}
use planes.Backend.Store.Claim.{before_refl, next_queued-none, Claimed, claim-Claimed}
use planes.Backend.Store.Lifecycle.{run, IsVerdict}
use planes.Backend.Worker.Round.{round_verdict, round_verdict-IsVerdict, run_once_idle}
use planes.Backend.Worker.Loop.{
  StopsAt, round_table, round_table-IsValid, sleep-IsValid, run_once_lem, Passed,
  run_loop-Invariant,
}
use planes.Backend.Store.Counts.{
  rowcount-update, rowcount-update-<, rowcount-pos, find-update-spared, find-update-taken,
  spared_by_state, spared_by_id, own_state, terminal-not_queued, terminal-not_running,
}
use planes.Backend.Worker.Ahead.{not_after, ahead, SubmitsLater, Spares-later, run-later}
use planes.Backend.Worker.{attempt, Pass, following, sleep_unless, run_loop}

module _ (show_float : Float → String) (catalog : Result Fields)
    (engine : ComputeRequest → Result ComputeResponse) (r : JobRecord) where
  abbrev pub Waiting : ℕ → Table → Type 0
  Waiting m rows = (find r.job_id rows ≡ some r) × (r.state ≡ queued) × (ahead r rows ≤ m)

  abbrev pub HasEnded : Table → Type 0
  HasEnded rows = (j : JobRecord) × (find r.job_id rows ≡ some j) × (is_terminal j.state ≡ true)

  abbrev pub OnlyLater : (ℕ → Pass) → Type 0
  OnlyLater passes =
      (k : ℕ) → All (SubmitsLater r) (passes k).during × All (SubmitsLater r) (passes k).slept

  round-HasEnded :
      (pass : Pass) (rows : Table) (q : JobRecord)
      → All (SubmitsLater r) pass.during
      → HasEnded rows
      → HasEnded (round_table show_float catalog engine pass q rows)
  round-HasEnded pass rows q later (j, e, t) =
      let e₁ =
        find-update-spared (has_state q.job_id queued) (start pass.started) (λ x. refl) r.job_id
          rows j e (spared_by_state q.job_id queued j (terminal-not_queued j.state t)) in
      let e₂ = run-later r j r.job_id pass.during _ later e₁ in
      (
        j,
        find-update-spared (has_state q.job_id running)
            (close
              (round_verdict q.job_id (attempt show_float catalog engine (start pass.started q)))
              pass.finished)
            (λ x. refl) r.job_id _ j e₂.0
            (spared_by_state q.job_id running j (terminal-not_running j.state t)),
        t,
      )

  round_own :
      (pass : Pass) (rows : Table)
      → All (SubmitsLater r) pass.during
      → find r.job_id rows ≡ some r
      → r.state ≡ queued
      → HasEnded (round_table show_float catalog engine pass r rows)
  round_own pass rows later e s =
      let v = round_verdict r.job_id (attempt show_float catalog engine (start pass.started r)) in
      let e₁ =
        find-update-taken (has_state r.job_id queued) (start pass.started) (λ x. refl) r.job_id rows
          r e (own_state queued r (rw s refl)) in
      let e₂ = run-later r (start pass.started r) r.job_id pass.during _ later e₁ in
      let verdict : IsVerdict v =
        round_verdict-IsVerdict r.job_id
          (attempt show_float catalog engine (start pass.started r)) in
      (
        close v pass.finished (start pass.started r),
        find-update-taken (has_state r.job_id running) (close v pass.finished) (λ x. refl) r.job_id
            _ (start pass.started r) e₂.0 (own_state running (start pass.started r) refl),
        verdict.terminal,
      )

  closed_fewer :
      (v : Verdict) (now : String)
      → IsVerdict v
      → (q : JobRecord) → not_after r (close v now q) ≡ true
      → not_after r q ≡ true
  closed_fewer v now good q h = cc (rw (terminal-not_queued v.state good.terminal) at h)

  round_other :
      (pass : Pass) (rows : Table) (q : JobRecord) (m : ℕ)
      → All (SubmitsLater r) pass.during
      → In q rows
      → q.state ≡ queued
      → before q r ≡ true
      → (r.job_id == q.job_id) ≡ false
      → Waiting (suc m) rows
      → Waiting m (round_table show_float catalog engine pass q rows)
  unfolding before
  round_other pass rows q m later member s first other_id (e, queued_r, few) =
      let attempted = attempt show_float catalog engine (start pass.started q) in
      let v = round_verdict q.job_id attempted in
      let e₁ =
        find-update-spared (has_state q.job_id queued) (start pass.started) (λ x. refl) r.job_id
          rows r e (spared_by_id q.job_id queued r other_id) in
      let (e₂, same) = run-later r r r.job_id pass.during _ later e₁ in
      let less =
        rowcount-update-< (not_after r) (has_state q.job_id queued) (start pass.started) (λ x h. cc)
          rows q member (own_state queued q (rw s refl)) (rw (s, first) refl) refl in
      let closed =
        rowcount-update (not_after r) (has_state q.job_id running) (close v pass.finished)
          (closed_fewer v pass.finished (round_verdict-IsVerdict q.job_id attempted))
          (run pass.during (update (has_state q.job_id queued) (start pass.started) rows)) in
      (
        find-update-spared (has_state q.job_id running) (close v pass.finished) (λ x. refl) r.job_id
            _ r e₂ (spared_by_id q.job_id running r other_id),
        queued_r,
        omega (arith, less, same, closed, few),
      )

  sleep_later :
      (pass : Pass) (job : Option String) (rows : Table) (q : JobRecord)
      → All (SubmitsLater r) pass.slept
      → find r.job_id rows ≡ some q
      → find r.job_id (sleep_unless pass job rows) ≡ some q
  sleep_later pass (some id) rows q later e = e
  sleep_later pass none rows q later e = elim (Bool-cases pass.stop_idle) [
    | inl stopped ↦ rw stopped e
    | inr asleep ↦ rw asleep ((run-later r q r.job_id pass.slept rows later e).0)
  ]

  -- The job waits and has no more rows ahead than there are passes left, or has ended.
  pub record Nears (passes : ℕ → Pass) (m : ℕ) (rows : Table) : Type 0 where
    pub valid : IsValid rows
    pub later : OnlyLater passes
    pub place : Waiting m rows ⊎ HasEnded rows

  pass_idle :
      (passes : ℕ → Pass) (m : ℕ) (rows : Table)
      → Nears passes (suc m) rows
      → next_queued rows ≡ none
      → Passed show_float catalog engine (passes 0) rows (Nears (following passes) m)
  pass_idle passes m rows near e = record {
    job = none;
    rows₁ = rows;
    round =
        run_once_idle show_float catalog engine (passes 0).started (passes 0).finished
          (passes 0).during rows e;
    next = record {
      valid = sleep-IsValid show_float catalog engine (passes 0) none rows near.valid;
      later = λ k. near.later (suc k);
      place = elim near.place [
        | inl (f, s, few) ↦ cc (next_queued-none rows r e (In-of_find r.job_id rows r f), s)
        | inr (j, f, t) ↦ inr (j, sleep_later (passes 0) none rows j (near.later 0).1 f, t)
      ];
    };
  }

  round_place :
      (passes : ℕ → Pass) (m : ℕ) (rows : Table) (q : JobRecord)
      → Nears passes (suc m) rows
      → next_queued rows ≡ some q
      → (Waiting m (round_table show_float catalog engine (passes 0) q rows)
          ⊎ HasEnded (round_table show_float catalog engine (passes 0) q rows))
  round_place passes m rows q near e = elim near.place [
    | inr ended ↦ inr (round-HasEnded (passes 0) rows q (near.later 0).0 ended)
    | inl waiting ↦ elim (Bool-cases (r.job_id == q.job_id)) [
      | inr other_id ↦ inl (
          round_other (passes 0) rows q m (near.later 0).0 taken.member taken.was_queued
            (taken.first r (In-of_find r.job_id rows r waiting.0) waiting.1) other_id waiting)
      | inl own ↦
          let found : find r.job_id rows ≡ some q =
            rw ((eq_iff _ _).0 own) (find_of_In q rows near.valid taken.member) in
          let same : r ≡ q = cc (found, waiting.0) in
          inr (rw (← same) (round_own (passes 0) rows (near.later 0).0 waiting.0 waiting.1))
    ]
  ]
    where
      taken :
          Claimed
            (passes 0).started
            rows
            (update (has_state q.job_id queued) (start (passes 0).started) rows)
            (start (passes 0).started q)
            q
      taken = claim-Claimed (passes 0).started rows q near.valid e

  pass-Nears :
      (passes : ℕ → Pass) (m : ℕ) (rows : Table)
      → Nears passes (suc m) rows
      → Passed show_float catalog engine (passes 0) rows (Nears (following passes) m)
  pass-Nears passes m rows near = elim (Option-cases (next_queued rows)) [
    | inl e ↦ pass_idle passes m rows near e
    | inr (q, e) ↦ record {
      job = some q.job_id;
      rows₁ = round_table show_float catalog engine (passes 0) q rows;
      round =
          run_once_lem show_float catalog engine (passes 0) rows q near.valid e
            (Spares-later q.job_id r (passes 0).during (near.later 0).0);
      next = record {
        valid = round_table-IsValid show_float catalog engine (passes 0) q rows near.valid e;
        later = λ k. near.later (suc k);
        place = round_place passes m rows q near e;
      };
    }
  ]

  -- A waiting job is ahead of itself.
  waiting-ahead : (rows : Table) → find r.job_id rows ≡ some r → r.state ≡ queued → 1 ≤ ahead r rows
  unfolding before
  waiting-ahead rows e s =
      rowcount-pos (not_after r) r rows (In-of_find r.job_id rows r e) (rw (s, before_refl r) refl)

  -- A job that is queued on a valid table has ended when the loop returns without an exception, if the
  -- stop flag is first set after at least as many passes as there are queued rows not after the job in
  -- the order of creation time and id, itself included, and if the other processes' transactions
  -- meanwhile only submit jobs that come after it.
  pub run_loop-HasEnded :
      (m : ℕ) (passes : ℕ → Pass) (rows : Table)
      → IsValid rows
      → find r.job_id rows ≡ some r
      → r.state ≡ queued
      → ahead r rows ≤ m
      → OnlyLater passes
      → StopsAt passes m
      → (rows' : Table) × (run_loop show_float catalog engine passes (suc m) rows
          ≡ some (ok tt, rows'))
        × HasEnded rows'
  run_loop-HasEnded m passes rows h e s few later stops =
      let (rows', returned, (last, near)) =
        run_loop-Invariant show_float catalog engine Nears pass-Nears m passes rows stops
          (record { valid = h; later = later; place = inl (e, s, few) }) in
      (rows', returned, arrived rows' near.place)
    where
      arrived : (t : Table) → Waiting 0 t ⊎ HasEnded t → HasEnded t
      arrived t (inr ended) = ended
      arrived t (inl (f, w, none_left)) =
          absurd (let one = waiting-ahead t f w in omega (arith, one, none_left))
