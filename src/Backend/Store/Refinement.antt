-- ===== src/Backend/Store/Refinement.antt =====
-- The table of backend/store.py refines the abstract store, so the order of its rows is never seen.
use mathlib.Core.Path.{fun_ext}
use planes.Base.{
  String, ◌==◌, eq_iff, eq_refl, ◌≡◌, refl, sym, ◌∙◌, subst, inl, inr, true, false, none, some,
  List, [], ◌∷◌, ◌++◌, arith, if◌then◌else◌, Bool-cases, Option-cases,
}
use planes.Base.Int.{ℤ}
use planes.Json.{Fields}
use planes.Backend.Models.{ComputeResponse}
use planes.Backend.Store.{
  JobState, queued, running, failed, JobRecord, Table, find, update, rowcount, state_eq, has_state,
  start, close, Verdict, finish, verdict_of, finish_with_response, mark_failed, next_queued,
  claim_next_queued_job, create_job, new_row, fits_int64,
}
use planes.Backend.Store.Invariant.{
  IsValid, rowcount_lem, find-update, find-job_id, find-append, In-of_find, find_of_In,
}
use planes.Backend.Store.Claim.{Claimed, claim-Claimed, claim_lem, claim_none, next_queued-none}
use planes.Backend.Store.Counts.{find-update-spared, find-update-taken, spared_by_id}
use planes.Backend.Store.Lifecycle.{Operation, create, claim, respond, fail, apply, run}
use planes.Backend.Store.History.{apply-IsValid}
use planes.Backend.Store.Abstract.{
  Jobs, jobs_of, with_job, accepted, ended, Claims, idle, taken, Does, DoesAll, Does-unique,
}

eq_sym : (s t : String) → (s == t) ≡ (t == s)
eq_sym s t = ground (arith, eq_iff s t, eq_iff t s)

-- A conditional UPDATE of one job, seen through the ids.
find-update_one :
    (id : String) (s : JobState) (f : JobRecord → JobRecord)
    → ((x : JobRecord) → (f x).job_id ≡ x.job_id)
    → (rows : Table) (r : JobRecord) → find id rows ≡ some r
    → state_eq r.state s ≡ true
    → (k : String)
    → find k (update (has_state id s) f rows) ≡ (if id == k then some (f r) else find k rows)
find-update_one id s f keeps rows r e h k = elim (Bool-cases (id == k)) [
  | inl own ↦
      let here : find k rows ≡ some r = rw (← (eq_iff id k).0 own) e in
      let mine : has_state id s r ≡ true = rw (find-job_id id rows r e, eq_refl, h) refl in
      rw own (find-update-taken (has_state id s) f keeps k rows r here mine)
  | inr other_id ↦ elim (Option-cases (find k rows)) [
    | inl absent ↦ rw (find-update (has_state id s) f keeps, other_id, absent) refl
    | inr (q, found) ↦
        rw (other_id, found)
          (find-update-spared (has_state id s) f keeps k rows q found
            (spared_by_id id s q (rw (find-job_id k rows q found, eq_sym k id) other_id)))
  ]
]

-- The writes of the store, as tables of jobs.
update_one :
    (id : String) (s : JobState) (f : JobRecord → JobRecord)
    → ((x : JobRecord) → (f x).job_id ≡ x.job_id)
    → (rows : Table) (r : JobRecord) → find id rows ≡ some r
    → state_eq r.state s ≡ true
    → jobs_of (update (has_state id s) f rows) ≡ with_job id (f r) (jobs_of rows)
update_one id s f keeps rows r e h = fun_ext (find-update_one id s f keeps rows r e h)

module _ (id : String) (v : Verdict) (now : String) (jobs : Jobs) where
  ended_absent : jobs id ≡ none → ended id v now jobs ≡ jobs
  ended_absent e = rw (e, ended) refl

  ended_idle :
      (r : JobRecord)
      → jobs id ≡ some r
      → state_eq r.state running ≡ false
      → ended id v now jobs ≡ jobs
  ended_idle r e h = rw (e, ended) (rw h refl)

  ended_running :
      (r : JobRecord)
      → jobs id ≡ some r
      → state_eq r.state running ≡ true
      → ended id v now jobs ≡ with_job id (close v now r) jobs
  ended_running r e h = rw (e, ended) (rw h refl)

module _ (id : String) (v : Verdict) (now : String) (rows : Table) where
  finish_refused : rowcount (has_state id running) rows ≡ 0 → (finish id v now rows).1 ≡ rows
  unfolding finish
  finish_refused e = rw e refl

  finish_one :
      rowcount (has_state id running) rows ≡ 1
      → (finish id v now rows).1 ≡ update (has_state id running) (close v now) rows
  unfolding finish
  finish_one e = rw e refl

  finish-ended : IsValid rows → jobs_of (finish id v now rows).1 ≡ ended id v now (jobs_of rows)
  finish-ended h = elim (Option-cases (find id rows)) [
    | inl absent ↦
        rw (finish_refused (rw (rowcount_lem id running rows h, absent) refl))
          (sym (ended_absent id v now (jobs_of rows) absent))
    | inr (r, e) ↦ elim (Bool-cases (state_eq r.state running)) [
      | inl busy ↦ rw (finish_one (rw (rowcount_lem id running rows h, e, busy) refl)) (
          update_one id running (close v now) (λ x. refl) rows r e busy
          ∙ sym (ended_running id v now (jobs_of rows) r e busy))
      | inr idle_row ↦
          rw (finish_refused (rw (rowcount_lem id running rows h, e, idle_row) refl))
            (sym (ended_idle id v now (jobs_of rows) r e idle_row))
    ]
  ]

respond-ended :
    (id : String) (response : ComputeResponse) (now : String) (rows : Table)
    → IsValid rows
    → jobs_of (finish_with_response id response now rows).1 ≡ (
        if response.job_id == id
        then ended id (verdict_of response) now (jobs_of rows)
        else jobs_of rows)
unfolding finish_with_response
respond-ended id response now rows h = elim (Bool-cases (response.job_id == id)) [
  | inl own ↦ rw own (finish-ended id (verdict_of response) now rows h)
  | inr foreign ↦ rw foreign refl
]

create-accepted :
    (id version : String) (scenario optimization : Fields) (seed : ℤ) (now : String) (rows : Table)
    → jobs_of (create_job id version scenario optimization seed now rows).1
      ≡ accepted id version scenario optimization seed now (jobs_of rows)
unfolding create_job find
create-accepted id version scenario optimization seed now rows =
    elim (Bool-cases (fits_int64 seed)) [
      | inr big ↦ rw big refl
      | inl fits ↦ elim (Option-cases (find id rows)) [
        | inr (r, e) ↦ rw (fits, e) refl
        | inl e ↦ rw (fits, e) (fun_ext (appended e))
      ]
    ]
  where
    appended :
        find id rows ≡ none
        → (k : String)
        → find k (rows ++ new_row id version scenario optimization seed now ∷ []) ≡ (
            if id == k
            then some (new_row id version scenario optimization seed now)
            else find k rows)
    appended e k = elim (Bool-cases (id == k)) [
      | inl own ↦
          let here : find k rows ≡ none = rw (← (eq_iff id k).0 own) e in
          rw (find-append, here, own) refl
      | inr other_id ↦ elim (Option-cases (find k rows)) [
        | inl absent ↦ rw (find-append, absent, other_id) refl
        | inr (q, found) ↦ rw (find-append, found, other_id) refl
      ]
    ]

claim-Claims :
    (now : String) (rows : Table)
    → IsValid rows
    → Claims now (jobs_of rows) (jobs_of (claim_next_queued_job now rows).1)
claim-Claims now rows h = elim (Option-cases (next_queued rows)) [
  | inl e ↦
      idle (λ id q f s. cc (next_queued-none rows q e (In-of_find id rows q f), s))
        (rw (claim_none now rows e) refl)
  | inr (r, e) ↦
      let k : Claimed now rows (update (has_state r.job_id queued) (start now) rows) (start now r)
          r =
        claim-Claimed now rows r h e in
      let found = find_of_In r rows h k.member in
      taken r found k.was_queued (λ id q f s. k.first q (In-of_find id rows q f) s)
        (rw (claim_lem now rows r h e)
          (update_one r.job_id queued (start now) (λ x. refl) rows r found (rw k.was_queued refl)))
]

-- Each transaction on a valid table does to its jobs what the abstract store says.
apply-Does :
    (op : Operation) (rows : Table)
    → IsValid rows
    → Does op (jobs_of rows) (jobs_of (apply op rows))
unfolding apply mark_failed
apply-Does (create id version scenario optimization seed now) rows h =
    create-accepted id version scenario optimization seed now rows
apply-Does (claim now) rows h = claim-Claims now rows h
apply-Does (respond id response now) rows h = respond-ended id response now rows h
apply-Does (fail id error now) rows h =
    finish-ended id (record { state = failed; result = none; error = some error }) now rows h

-- Every history of transactions on a valid table refines the abstract store: what it does to the jobs
-- is a sequence of the abstract steps of its transactions.
pub run-DoesAll :
    (ops : List Operation) (rows : Table)
    → IsValid rows
    → DoesAll ops (jobs_of rows) (jobs_of (run ops rows))
unfolding run
run-DoesAll [] rows h = refl
run-DoesAll (op ∷ ops) rows h = (
  jobs_of (apply op rows),
  apply-Does op rows h,
  run-DoesAll ops (apply op rows) (apply-IsValid op rows h),
)

-- The order of the rows is never seen: two valid tables with the same jobs have the same jobs after
-- every history of transactions.
pub run-same_jobs :
    (ops : List Operation) (rows other : Table)
    → IsValid rows
    → IsValid other
    → jobs_of rows ≡ jobs_of other
    → jobs_of (run ops rows) ≡ jobs_of (run ops other)
unfolding run
run-same_jobs [] rows other h k e = e
run-same_jobs (op ∷ ops) rows other h k e =
    let step : Does op (jobs_of other) (jobs_of (apply op rows)) =
      subst (λ (j : Jobs). Does op j (jobs_of (apply op rows))) e (apply-Does op rows h) in
    run-same_jobs ops (apply op rows) (apply op other) (apply-IsValid op rows h)
      (apply-IsValid op other k)
      (Does-unique op (jobs_of other) (jobs_of (apply op rows)) (jobs_of (apply op other)) step
        (apply-Does op other k))
