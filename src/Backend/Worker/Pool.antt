-- ===== src/Backend/Worker/Pool.antt =====
-- Any number of workers and clients on one table: every interleaving of submissions, claims, ends of
-- rounds and deaths of worker processes.
use planes.Base.{
  ℕ, String, ◌==◌, ◌≡◌, ◌≢◌, refl, ◌∙◌, sym, ap, subst, inl, inr, false, Option, none, some, arith,
  if◌then◌else◌, Bool-cases, eqb,
}
use planes.Base.Int.{ℤ}
use planes.Base.Result.{Result, ok}
use planes.Json.{Fields}
use planes.Backend.Models.{ComputeResponse}
use planes.Backend.Store.{
  running, JobRecord, Table, find, has_state, close, create_job, claim_next_queued_job,
}
use planes.Backend.Store.Invariant.{
  IsValid, changed, find-update, update-IsValid, find-job_id, find_of_In,
}
use planes.Backend.Store.Claim.{Claimed, claim_takes_first}
use planes.Backend.Store.Lifecycle.{
  claim-IsValid, create-IsValid, has_state-state, close-IsConsistent,
}
use planes.Backend.Worker.{settle}
use planes.Backend.Worker.Round.{
  closed_table, round_verdict, round_verdict-IsVerdict, settle_lem, settle_running,
}
use planes.Backend.Worker.Interference.{create_kept, ne-eqb}

-- The table, and the job that each worker is at work on.
pub record Pool : Type 0 where
  pub rows : Table
  pub holds : ℕ → Option JobRecord

abbrev pub assign : (ℕ → Option JobRecord) → ℕ → Option JobRecord → ℕ → Option JobRecord
assign holds w o v = if eqb v w then o else holds v

-- `take` is the claim of `run_once` by an idle worker and `settle_job` the end of its round, with
-- whatever its `try` block computed; `die` is a process that ends in between.
pub data Step (p q : Pool) : Type 0 where
  submit :
      (id version : String) (scenario optimization : Fields) (seed : ℤ) (now : String)
      → q ≡ record p { rows = (create_job id version scenario optimization seed now p.rows).1 }
      → Step p q
  take :
      (w : ℕ) (now : String) (job : JobRecord) (rows : Table)
      → p.holds w ≡ none
      → claim_next_queued_job now p.rows ≡ (some job, rows)
      → q ≡ record { rows = rows; holds = assign p.holds w (some job) }
      → Step p q
  settle_job :
      (w : ℕ) (job : JobRecord) (attempted : Result ComputeResponse) (now : String)
      → p.holds w ≡ some job
      → q ≡ record {
        rows = (settle job.job_id attempted now p.rows).1;
        holds = assign p.holds w none;
      }
      → Step p q
  die : (w : ℕ) → q ≡ record p { holds = assign p.holds w none } → Step p q

pub data Reach (p : Pool) : Pool → Type 0 where
  here : Reach p p
  next : {q r : Pool} → Reach p q → Step q r → Reach p r

-- Every held job is running in the table, and no two workers hold one job.
pub record IsSound (p : Pool) : Type 0 where
  pub valid : IsValid p.rows
  pub owns :
      (w : ℕ) (j : JobRecord)
      → p.holds w ≡ some j
      → (find j.job_id p.rows ≡ some j) × (j.state ≡ running)
  pub apart :
      (w v : ℕ) (j k : JobRecord)
      → p.holds w ≡ some j
      → p.holds v ≡ some k
      → j.job_id ≡ k.job_id
      → w ≡ v

-- A worker that is idle holds nothing, so only the others' jobs remain.
assign-none :
    (holds : ℕ → Option JobRecord) (w v : ℕ) (j : JobRecord)
    → assign holds w none v ≡ some j
    → (holds v ≡ some j) × (v ≢ w)
assign-none holds w v j h = ground arith

drop-IsSound : (p : Pool) (w : ℕ) → IsSound p → IsSound (record p { holds = assign p.holds w none })
drop-IsSound p w s = record {
  valid = s.valid;
  owns = λ v j h. s.owns v j (assign-none p.holds w v j h).0;
  apart = λ v u j k h h' e.
      s.apart v u j k (assign-none p.holds w v j h).0 (assign-none p.holds w u k h').0 e;
}

submit-IsSound :
    (p : Pool) (id version : String) (scenario optimization : Fields) (seed : ℤ) (now : String)
    → IsSound p
    → IsSound (record p { rows = (create_job id version scenario optimization seed now p.rows).1 })
submit-IsSound p id version scenario optimization seed now s = record {
  valid = create-IsValid id version scenario optimization seed now p.rows s.valid;
  owns = λ w j h.
      let (found, busy) = s.owns w j h in
      (
        create_kept j.job_id j refl busy id version scenario optimization seed now p.rows found,
        busy,
      );
  apart = s.apart;
}

-- The job that a claim returns is held by nobody.
module _ (p : Pool) (w : ℕ) (now : String) (job r : JobRecord) (rows : Table) (s : IsSound p)
    (c : Claimed now p.rows rows job r) where
  held_elsewhere : (v : ℕ) (k : JobRecord) → p.holds v ≡ some k → k.job_id ≢ job.job_id
  held_elsewhere v k h e =
      let (found, busy) = s.owns v k h in
      let name : k.job_id ≡ r.job_id = e ∙ ap (λ (x : JobRecord). x.job_id) c.job_lem in
      let again : find r.job_id p.rows ≡ some k = subst (λ i. find i p.rows ≡ some k) name found in
      let row : find r.job_id p.rows ≡ some r = find_of_In r p.rows s.valid c.member in
      let same : k ≡ r = cc (again, row) in
      cc (ap (λ (x : JobRecord). x.state) same, busy, c.was_queued)

  take-owns :
      (v : ℕ) (k : JobRecord)
      → assign p.holds w (some job) v ≡ some k
      → (find k.job_id rows ≡ some k) × (k.state ≡ running)
  take-owns v k h = elim (Bool-cases (eqb v w)) [
    | inl own ↦
        let same : job ≡ k = cc (rw own at h) in
        let name : r.job_id ≡ job.job_id = sym (ap (λ (x : JobRecord). x.job_id) c.job_lem) in
        rw (← same) (
          subst (λ i. find i rows ≡ some job) name c.stored,
          ap (λ (x : JobRecord). x.state) c.job_lem,
        )
    | inr foreign ↦
        let h' : p.holds v ≡ some k = rw foreign at h in
        let (found, busy) = s.owns v k h' in
        let apart_id : k.job_id ≢ r.job_id =
          λ e. held_elsewhere v k h' (e ∙ sym (ap (λ (x : JobRecord). x.job_id) c.job_lem)) in
        (c.others k.job_id apart_id ∙ found, busy)
  ]

  take-apart :
      (v u : ℕ) (j k : JobRecord)
      → assign p.holds w (some job) v ≡ some j
      → assign p.holds w (some job) u ≡ some k
      → j.job_id ≡ k.job_id
      → v ≡ u
  take-apart v u j k h h' e = elim (Bool-cases (eqb v w)) [
    | inl v_new ↦ elim (Bool-cases (eqb u w)) [
      | inl u_new ↦ ground arith
      | inr u_old ↦
          let own : job ≡ j = cc (rw v_new at h) in
          absurd (
            held_elsewhere u k (rw u_old at h')
              (sym e ∙ ap (λ (x : JobRecord). x.job_id) (sym own)))
    ]
    | inr v_old ↦ elim (Bool-cases (eqb u w)) [
      | inl u_new ↦
          let own : job ≡ k = cc (rw u_new at h') in
          absurd
            (held_elsewhere v j (rw v_old at h) (e ∙ ap (λ (x : JobRecord). x.job_id) (sym own)))
      | inr u_old ↦ s.apart v u j k (rw v_old at h) (rw u_old at h') e
    ]
  ]

-- The end of a round keeps the rows of the other workers' jobs.
closed_other :
    (id k : String) (attempted : Result ComputeResponse) (now : String) (rows : Table)
    (r : JobRecord)
    → k ≢ id
    → find k rows ≡ some r
    → find k (closed_table id attempted now rows) ≡ some r
closed_other id k attempted now rows r ne e =
    rw (find-update (has_state id running) (close (round_verdict id attempted) now) (λ x. refl), e)
      (foreign (rw (find-job_id k rows r e) (ne-eqb id k (λ same. ne (sym same)))))
  where
    foreign :
        (r.job_id == id) ≡ false
        → changed (has_state id running) (close (round_verdict id attempted) now) (some r) ≡ some r
    foreign other = rw other refl

settle-IsSound :
    (p : Pool) (w : ℕ) (job : JobRecord) (attempted : Result ComputeResponse) (now : String)
    → IsSound p
    → p.holds w ≡ some job
    → IsSound (record {
      rows = (settle job.job_id attempted now p.rows).1;
      holds = assign p.holds w none;
    })
settle-IsSound p w job attempted now s held =
    let (found, busy) = s.owns w job held in
    let table = settle_lem job.job_id attempted now p.rows job s.valid found busy in
    rw table (record {
      valid =
          update-IsValid (has_state job.job_id running)
            (close (round_verdict job.job_id attempted) now) (λ x. refl)
            (λ x run c.
              close-IsConsistent (round_verdict job.job_id attempted) now x
                (round_verdict-IsVerdict job.job_id attempted)
                (has_state-state job.job_id running x run) c)
            p.rows s.valid;
      owns = λ v k h.
          let (h', ne) = assign-none p.holds w v k h in
          let (found', busy') = s.owns v k h' in
          (
            closed_other job.job_id k.job_id attempted now p.rows k
                (λ e. ne (s.apart v w k job h' held e)) found',
            busy',
          );
      apart = λ v u j k h h' e.
          s.apart v u j k (assign-none p.holds w v j h).0 (assign-none p.holds w u k h').0 e;
    })

-- Every step keeps the pool sound.
pub Step-IsSound : {p q : Pool} → Step p q → IsSound p → IsSound q
Step-IsSound {p} (submit id version scenario optimization seed now e) s =
    rw e (submit-IsSound p id version scenario optimization seed now s)
Step-IsSound {p} (take w now job rows idle got e) s =
    let (r, c) = claim_takes_first now p.rows rows job s.valid got in
    rw e (record {
      valid =
          rw (ap (λ (t : Option JobRecord × Table). t.1) got) at (claim-IsValid now p.rows s.valid);
      owns = take-owns p w now job r rows s c;
      apart = take-apart p w now job r rows s c;
    })
Step-IsSound {p} (settle_job w job attempted now held e) s =
    rw e (settle-IsSound p w job attempted now s held)
Step-IsSound {p} (die w e) s = rw e (drop-IsSound p w s)

-- Every pool that is reached from a sound one is sound: its table is valid, each held job is the
-- table's row and running, and no two workers hold one job.
pub Reach-IsSound : {p q : Pool} → IsSound p → Reach p q → IsSound q
Reach-IsSound s here = s
Reach-IsSound s (next r st) = Step-IsSound st (Reach-IsSound s r)

-- In every pool that is reached from a sound one, by any interleaving of submissions, claims, ends
-- of rounds and deaths of workers, the end of a round by a worker that holds a job raises nothing
-- and returns the job's id, and the job's row is then the held one closed with the round's verdict.
pub settle_never_raises :
    {p q : Pool} (w : ℕ) (job : JobRecord) (attempted : Result ComputeResponse) (now : String)
    → IsSound p
    → Reach p q
    → q.holds w ≡ some job
    → ((settle job.job_id attempted now q.rows).0 ≡ ok (some job.job_id))
      × (find job.job_id (settle job.job_id attempted now q.rows).1
          ≡ some (close (round_verdict job.job_id attempted) now job))
settle_never_raises {q} w job attempted now s reached held =
    let sound = Reach-IsSound s reached in
    let (found, busy) = sound.owns w job held in
    settle_running job.job_id attempted now q.rows job sound.valid found busy
