-- ===== src/Backend/Store/History.antt =====
-- Whole histories of the table: what every interleaving of transactions keeps.
use planes.Base.{
  ℕ, suc, ◌≤◌, String, ◌==◌, eq_iff, ◌≡◌, refl, ap, subst, ◌∙◌, inl, inr, Bool, true, false, Option,
  none, some, List, [], ◌∷◌, arith, if◌then◌else◌, Bool-cases,
}
use planes.Json.{Fields}
use planes.Backend.Models.{ComputeResponse}
use planes.Backend.Store.{
  JobState, queued, running, failed, JobRecord, Table, find, start, close, verdict_of,
  finish_with_response, mark_failed, claim_next_queued_job,
}
use planes.Backend.Store.Invariant.{is_terminal, IsValid, find_of_In}
use planes.Backend.Store.Claim.{Claimed, claim_takes_first}
use planes.Backend.Store.Lifecycle.{
  Operation, create, claim, respond, fail, apply, run, Moves, same, inserted, started, ended,
  IsVerdict, verdict_of-IsVerdict, finish-IsValid, finish-Moves, claim-IsValid, claim-Moves,
  create-IsValid, create-Moves,
}

mark_failed-IsVerdict :
    (error : Fields) → IsVerdict (record { state = failed; result = none; error = some error })
mark_failed-IsVerdict error = record { terminal = refl; result = refl; error = refl }

module _ (id : String) (response : ComputeResponse) (now : String) where
  respond-IsValid :
      (rows : Table) → IsValid rows → IsValid (finish_with_response id response now rows).1
  unfolding finish_with_response
  respond-IsValid rows h = elim (Bool-cases (response.job_id == id)) [
    | inl own ↦
        rw own (finish-IsValid id (verdict_of response) now (verdict_of-IsVerdict response) rows h)
    | inr foreign ↦ rw foreign h
  ]

  respond-Moves :
      (k : String) (rows : Table)
      → Moves (find k rows) (find k (finish_with_response id response now rows).1)
  unfolding finish_with_response
  respond-Moves k rows = elim (Bool-cases (response.job_id == id)) [
    | inl own ↦
        rw own (finish-Moves id (verdict_of response) now (verdict_of-IsVerdict response) k rows)
    | inr foreign ↦ rw foreign (same refl)
  ]

-- Every transaction keeps the table valid: rows are consistent and ids are distinct.
pub apply-IsValid : (op : Operation) (rows : Table) → IsValid rows → IsValid (apply op rows)
unfolding apply mark_failed
apply-IsValid (create id version scenario optimization seed now) rows h =
    create-IsValid id version scenario optimization seed now rows h
apply-IsValid (claim now) rows h = claim-IsValid now rows h
apply-IsValid (respond id response now) rows h = respond-IsValid id response now rows h
apply-IsValid (fail id error now) rows h =
    finish-IsValid id _ now (mark_failed-IsVerdict error) rows h

-- On a valid table, every transaction moves each job by one step of the life cycle, or not at all: a new job is
-- queued, a queued one starts, a running one ends with its verdict.
pub apply-Moves :
    (op : Operation) (id : String) (rows : Table)
    → IsValid rows
    → Moves (find id rows) (find id (apply op rows))
unfolding apply mark_failed
apply-Moves (create k version scenario optimization seed now) id rows h =
    create-Moves k version scenario optimization seed now id rows
apply-Moves (claim now) id rows h = claim-Moves now id rows h
apply-Moves (respond k response now) id rows h = respond-Moves k response now id rows
apply-Moves (fail k error now) id rows h =
    finish-Moves k _ now (mark_failed-IsVerdict error) id rows

-- Any history that starts from a valid table ends in one.
pub run-IsValid : (ops : List Operation) (rows : Table) → IsValid rows → IsValid (run ops rows)
unfolding run
run-IsValid [] rows h = h
run-IsValid (op ∷ ops) rows h = run-IsValid ops (apply op rows) (apply-IsValid op rows h)

-- How far a job has come.
abbrev pub rank : JobState → ℕ
rank queued = 0
rank running = 1
rank _ = 2

-- `later` is the job `earlier` at a later time: the submitted data is the same, the state has not
-- gone back, and if `earlier` had ended then nothing differs.
pub record Continues (earlier later : JobRecord) : Type 0 where
  pub id_kept : later.job_id ≡ earlier.job_id
  pub version_kept : later.version ≡ earlier.version
  pub scenario_kept : later.scenario ≡ earlier.scenario
  pub optimization_kept : later.optimization ≡ earlier.optimization
  pub seed_kept : later.seed ≡ earlier.seed
  pub created_kept : later.created_at ≡ earlier.created_at
  pub forward : rank earlier.state ≤ rank later.state
  pub final : is_terminal earlier.state ≡ true → later ≡ earlier

Continues-refl : (r : JobRecord) → Continues r r
Continues-refl r = record {
  id_kept = refl;
  version_kept = refl;
  scenario_kept = refl;
  optimization_kept = refl;
  seed_kept = refl;
  created_kept = refl;
  forward = omega arith;
  final = λ t. refl;
}

Continues-trans : (a b c : JobRecord) → Continues a b → Continues b c → Continues a c
Continues-trans a b c h k = record {
  id_kept = k.id_kept ∙ h.id_kept;
  version_kept = k.version_kept ∙ h.version_kept;
  scenario_kept = k.scenario_kept ∙ h.scenario_kept;
  optimization_kept = k.optimization_kept ∙ h.optimization_kept;
  seed_kept = k.seed_kept ∙ h.seed_kept;
  created_kept = k.created_kept ∙ h.created_kept;
  forward = omega (arith, h.forward, k.forward);
  final = λ t. k.final (rw (h.final t) t) ∙ h.final t;
}

terminal-rank : (s : JobState) → is_terminal s ≡ true → 2 ≤ rank s
terminal-rank queued h = cc
terminal-rank running h = cc
terminal-rank _ h = omega arith

-- One step of the life cycle continues the job.
Moves-Continues :
    (o : Option JobRecord) (r : JobRecord) (before : Option JobRecord)
    → before ≡ some r
    → Moves before o
    → (r' : JobRecord) × (o ≡ some r') × Continues r r'
Moves-Continues o r before e (same p) = (r, p ∙ e, Continues-refl r)
Moves-Continues o r before e (inserted q p p' s) = cc
Moves-Continues o r before e (started q now p s p') =
    let own : q ≡ r = cc in
    (
      start now r,
      rw (← own) p',
      rw (← own) (record {
        id_kept = refl;
        version_kept = refl;
        scenario_kept = refl;
        optimization_kept = refl;
        seed_kept = refl;
        created_kept = refl;
        forward = rw s (omega arith);
        final = λ t. cc (rw s at t);
      }),
    )
Moves-Continues o r before e (ended q v now p s good p') =
    let own : q ≡ r = cc in
    (
      close v now r,
      rw (← own) p',
      rw (← own) (record {
        id_kept = refl;
        version_kept = refl;
        scenario_kept = refl;
        optimization_kept = refl;
        seed_kept = refl;
        created_kept = refl;
        forward = rw s (omega (arith, terminal-rank v.state good));
        final = λ t. cc (rw s at t);
      }),
    )

-- In any history on a valid table a job is never lost, its submitted data never changes, its state
-- never goes back, and once it has ended its row never changes again.
pub run-Continues :
    (ops : List Operation) (id : String) (rows : Table) (r : JobRecord)
    → IsValid rows
    → find id rows ≡ some r
    → (r' : JobRecord) × (find id (run ops rows) ≡ some r') × Continues r r'
unfolding run
run-Continues [] id rows r h e = (r, e, Continues-refl r)
run-Continues (op ∷ ops) id rows r h e =
    let (r₁, e₁, k₁) =
      Moves-Continues (find id (apply op rows)) r (find id rows) e (apply-Moves op id rows h) in
    let (r₂, e₂, k₂) = run-Continues ops id (apply op rows) r₁ (apply-IsValid op rows h) e₁ in
    (r₂, e₂, Continues-trans r r₁ r₂ k₁ k₂)

abbrev is_job : String → Option JobRecord → Bool
is_job id none = false
is_job id (some r) = r.job_id == id

-- Whether the transaction is a claim that returns the job.
abbrev claims_job : String → Operation → Table → Bool
claims_job id (claim now) rows = is_job id (claim_next_queued_job now rows).0
claims_job id _ rows = false

-- How many claims in the history return the job.
unfoldable pub claim_count : String → List Operation → Table → ℕ
claim_count id [] rows = 0
claim_count id (op ∷ ops) rows =
    let rest = claim_count id ops (apply op rows) in
    if claims_job id op rows then suc rest else rest

-- A claim that returns the job found it queued and left it running.
record Taken (id : String) (rows rows' : Table) : Type 0 where
  job : JobRecord
  now : String
  found : find id rows ≡ some job
  was_queued : job.state ≡ queued
  left_running : find id rows' ≡ some (start now job)

Claimed-Taken :
    (id now : String) (rows rows' : Table) (job r : JobRecord)
    → IsValid rows
    → Claimed now rows rows' job r
    → job.job_id ≡ id
    → Taken id rows rows'
Claimed-Taken id now rows rows' job r h k own =
    let name : r.job_id ≡ id = cc (k.job_lem, own) in
    record {
      job = r;
      now = now;
      found = subst (λ i. find i rows ≡ some r) name (find_of_In r rows h k.member);
      was_queued = k.was_queued;
      left_running =
          subst (λ i. find i rows' ≡ some (start now r)) name (k.stored ∙ ap some k.job_lem);
    }

claims_job-Taken :
    (id : String) (op : Operation) (rows : Table)
    → IsValid rows
    → claims_job id op rows ≡ true
    → Taken id rows (apply op rows)
unfolding apply
claims_job-Taken id (claim now) rows h c = taken (claim_next_queued_job now rows).0 refl c
  where
    same_result :
        (job : JobRecord)
        → (claim_next_queued_job now rows).0 ≡ some job
        → claim_next_queued_job now rows ≡ (some job, (claim_next_queued_job now rows).1)
    same_result job e = λ i. (e i, (claim_next_queued_job now rows).1)

    taken :
        (o : Option JobRecord)
        → (claim_next_queued_job now rows).0 ≡ o
        → is_job id o ≡ true
        → Taken id rows (claim_next_queued_job now rows).1
    taken none e own = cc
    taken (some job) e own =
        let (r, k) = claim_takes_first now rows _ job h (same_result job e) in
        Claimed-Taken id now rows _ job r h k ((eq_iff _ _).0 own)
claims_job-Taken id _ rows h c = cc

-- A job that is no longer queued is never claimed again.
claim_count_zero :
    (id : String) (ops : List Operation) (rows : Table) (r : JobRecord)
    → IsValid rows
    → find id rows ≡ some r
    → 1 ≤ rank r.state
    → claim_count id ops rows ≡ 0
unfolding claim_count
claim_count_zero id [] rows r h e k = refl
claim_count_zero id (op ∷ ops) rows r h e k =
    let (r₁, e₁, c) =
      Moves-Continues (find id (apply op rows)) r (find id rows) e (apply-Moves op id rows h) in
    let later =
      claim_count_zero id ops (apply op rows) r₁ (apply-IsValid op rows h) e₁
        (omega (arith, c.forward)) in
    elim (Bool-cases (claims_job id op rows)) [
      | inr not_taken ↦ rw not_taken later
      | inl taken ↦
          let t = claims_job-Taken id op rows h taken in
          let same_row : t.job ≡ r = cc (t.found, e) in
          absurd (omega (arith, rw (← same_row, t.was_queued) at k))
    ]

-- In any history of transactions on a valid table, whichever processes issue them, each job
-- is returned by at most one claim.
pub claimed_at_most_once :
    (id : String) (ops : List Operation) (rows : Table) → IsValid rows → claim_count id ops rows ≤ 1
unfolding claim_count
claimed_at_most_once id [] rows h = omega arith
claimed_at_most_once id (op ∷ ops) rows h = elim (Bool-cases (claims_job id op rows)) [
  | inr not_taken ↦
      rw not_taken (claimed_at_most_once id ops (apply op rows) (apply-IsValid op rows h))
  | inl taken ↦
      let t = claims_job-Taken id op rows h taken in
      let zero_later =
        claim_count_zero id ops (apply op rows) (start t.now t.job) (apply-IsValid op rows h)
          t.left_running (omega arith) in
      rw (taken, zero_later) (omega arith)
]
