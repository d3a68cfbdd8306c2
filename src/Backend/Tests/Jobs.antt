-- ===== src/Backend/Tests/Jobs.antt =====
-- The job table and the workers.
use mathlib.Core.Path.{fun_ext}
use planes.Base.{
  ◌==◌, inl, inr, Bool-cases, ◌≡◌, ◌≢◌, ◌≤◌, ◌↔◌, refl, eq_iff, none, some, List, [], ◌∷◌, In,
}
use planes.Base.Int.{pos}
use planes.Base.Result.{ok}
use planes.Base.Text.{text_leb}
use planes.Json.{end}
use planes.Backend.Store.{
  JobRecord, queued, find, claim_next_queued_job, next_queued, create_job, start, close,
  finish_with_response, mark_failed,
}
use planes.Backend.Store.Invariant.{IsValid}
use planes.Backend.Store.Claim.{Claimed, claim_takes_first, claim_none_iff}
use planes.Backend.Store.Lifecycle.{Operation, claim, respond, fail, run, apply, Moves}
use planes.Backend.Store.History.{
  claim_count, claimed_at_most_once, Continues, run-Continues, run-IsValid, apply-Moves,
}
use planes.Backend.Store.Abstract.{jobs_of, DoesAll}
use planes.Backend.Store.Refinement.{run-DoesAll, run-same_jobs}
use planes.Backend.Worker.{settle}
use planes.Backend.Worker.Round.{EndsJob, run_once-EndsJob, round_verdict}
use planes.Backend.Worker.Pool.{
  submit, take, Reach, here, next, IsSound, Reach-IsSound, settle_never_raises,
}
use planes.Backend.Tests.Data.{
  scenario, optimization, catalog, first, second, table, claimed_table, response, engine, show,
  empty_pool, queued_pool, busy_pool,
}

pub table-IsValid : IsValid table
unfolding find
table-IsValid = (
  record { started = refl; finished = refl; result = refl; error = refl },
  refl,
  (record { started = refl; finished = refl; result = refl; error = refl }, refl, tt),
)

claim_runs : claim_next_queued_job "t2" table ≡ (some (start "t2" first), claimed_table)
unfolding claim_next_queued_job text_leb
claim_runs = refl

claim_takes_first_example : (r : JobRecord) × Claimed "t2" table claimed_table (start "t2" first) r
claim_takes_first_example =
    claim_takes_first "t2" table claimed_table (start "t2" first) table-IsValid claim_runs

claim_none_iff_example :
    (claim_next_queued_job "t2" table ≡ (none, table))
    ↔ ((q : JobRecord) → In q table → q.state ≢ queued)
claim_none_iff_example = claim_none_iff "t2" table table-IsValid

abbrev history : List Operation
history = claim "t2" ∷ respond "a" response "t3" ∷ claim "t4" ∷ fail "a" end "t5" ∷ []

run_history :
    find "a" (run history table)
    ≡ some (close (round_verdict "a" (ok response)) "t3" (start "t2" first))
unfolding run apply claim_next_queued_job finish_with_response mark_failed text_leb
run_history = refl

claimed_at_most_once_example : claim_count "a" history table ≤ 1
claimed_at_most_once_example = claimed_at_most_once "a" history table table-IsValid

run-Continues_example :
    (r : JobRecord) × (find "a" (run history table) ≡ some r) × Continues first r
unfolding find
run-Continues_example = run-Continues history "a" table first table-IsValid refl

run-DoesAll_example : DoesAll history (jobs_of table) (jobs_of (run history table))
run-DoesAll_example = run-DoesAll history table table-IsValid

sorted-IsValid : IsValid (first ∷ second ∷ [])
unfolding find
sorted-IsValid = (
  record { started = refl; finished = refl; result = refl; error = refl },
  refl,
  (record { started = refl; finished = refl; result = refl; error = refl }, refl, tt),
)

sorted_jobs : jobs_of table ≡ jobs_of (first ∷ second ∷ [])
unfolding find
sorted_jobs = fun_ext λ id. elim (Bool-cases ("a" == id)) [
  | inl own ↦ rw (← (eq_iff "a" id).0 own) refl
  | inr other_id ↦ rw other_id refl
]

run-same_jobs_example : jobs_of (run history table) ≡ jobs_of (run history (first ∷ second ∷ []))
run-same_jobs_example =
    run-same_jobs history table (first ∷ second ∷ []) table-IsValid sorted-IsValid sorted_jobs

run-IsValid_example : IsValid (run history table)
run-IsValid_example = run-IsValid history table table-IsValid

apply-Moves_example : Moves (find "a" table) (find "a" (apply (claim "t2") table))
apply-Moves_example = apply-Moves (claim "t2") "a" table table-IsValid

run_once-EndsJob_example :
    EndsJob show (ok catalog) engine "t2" "t3" (claim "t2" ∷ respond "b" response "t3" ∷ []) table
unfolding next_queued text_leb
run_once-EndsJob_example =
    run_once-EndsJob show (ok catalog) engine "t2" "t3"
      (claim "t2" ∷ respond "b" response "t3" ∷ []) table first table-IsValid refl
      (tt, ((λ e. cc ((eq_iff "b" "a").1 e)), tt))

empty_pool-IsSound : IsSound empty_pool
empty_pool-IsSound = record { valid = tt; owns = λ w j h. cc; apart = λ w v j k h h' e. cc }

Reach-busy : Reach empty_pool busy_pool
unfolding create_job claim_next_queued_job text_leb
Reach-busy =
    next {q = queued_pool} (next here (submit "a" "v0" scenario optimization (pos 7) "t0" refl))
      (take 3 "t2" (start "t2" first) (start "t2" first ∷ []) refl refl refl)

Reach-IsSound_example : IsSound busy_pool
Reach-IsSound_example = Reach-IsSound empty_pool-IsSound Reach-busy

settle_never_raises_example :
    ((settle "a" (ok response) "t3" busy_pool.rows).0 ≡ ok (some "a"))
    × (find "a" (settle "a" (ok response) "t3" busy_pool.rows).1
        ≡ some (close (round_verdict "a" (ok response)) "t3" (start "t2" first)))
settle_never_raises_example =
    settle_never_raises 3 (start "t2" first) (ok response) "t3" empty_pool-IsSound Reach-busy refl
