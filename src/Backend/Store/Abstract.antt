-- ===== src/Backend/Store/Abstract.antt =====
-- The job store as a map from ids to jobs, without the order of the table's rows, and what each
-- transaction of backend/store.py does to it.
use planes.Base.{
  String, ◌==◌, eq_iff, ◌≡◌, ◌≢◌, sym, ◌∙◌, ap, true, Option, none, some, List, [], ◌∷◌, arith,
  if◌then◌else◌,
}
use planes.Base.Int.{ℤ}
use planes.Json.{Fields}
use planes.Backend.Store.{
  queued, running, failed, JobRecord, Table, find, state_eq, before, start, close, Verdict,
  verdict_of, new_row, fits_int64,
}
use planes.Base.Text.{text_leb_antisymm}
use planes.Backend.Store.Lifecycle.{Operation, create, claim, respond, fail}

-- The abstract store.
abbrev pub Jobs : Type 0
Jobs = String → Option JobRecord

-- The jobs of a table.
abbrev pub jobs_of : Table → Jobs
jobs_of rows id = find id rows

abbrev pub with_job : String → JobRecord → Jobs → Jobs
with_job id r jobs k = if id == k then some r else jobs k

-- A job is accepted when its seed fits and its id is new.
abbrev pub accepted : String → String → Fields → Fields → ℤ → String → Jobs → Jobs
accepted id version scenario optimization seed now jobs =
    if fits_int64 seed
    then elim (jobs id) [
      | none ↦ with_job id (new_row id version scenario optimization seed now) jobs
      | some _ ↦ jobs
    ]
    else jobs

-- A running job takes its verdict; any other is left.
abbrev pub ended : String → Verdict → String → Jobs → Jobs
ended id v now jobs = elim (jobs id) [
  | none ↦ jobs
  | some r ↦ if state_eq r.state running then with_job id (close v now r) jobs else jobs
]

-- A claim starts the first queued job, if there is one.
pub data Claims (now : String) (jobs jobs' : Jobs) : Type 0 where
  idle :
      ((id : String) (q : JobRecord) → jobs id ≡ some q → q.state ≢ queued)
      → jobs' ≡ jobs
      → Claims now jobs jobs'
  taken :
      (r : JobRecord)
      → jobs r.job_id ≡ some r
      → r.state ≡ queued
      → ((id : String) (q : JobRecord) → jobs id ≡ some q → q.state ≡ queued → before r q ≡ true)
      → jobs' ≡ with_job r.job_id (start now r) jobs
      → Claims now jobs jobs'

-- What a transaction does to the abstract store.
abbrev pub Does : Operation → Jobs → Jobs → Type 0
Does (create id version scenario optimization seed now) jobs jobs' =
    jobs' ≡ accepted id version scenario optimization seed now jobs
Does (claim now) jobs jobs' = Claims now jobs jobs'
Does (respond id response now) jobs jobs' =
    jobs' ≡ (if response.job_id == id then ended id (verdict_of response) now jobs else jobs)
Does (fail id error now) jobs jobs' =
    jobs' ≡ ended id (record { state = failed; result = none; error = some error }) now jobs

-- What a history does.
abbrev pub DoesAll : List Operation → Jobs → Jobs → Type 0
DoesAll [] jobs jobs' = jobs' ≡ jobs
DoesAll (op ∷ ops) jobs jobs' = (between : Jobs) × Does op jobs between × DoesAll ops between jobs'

before_antisymm : (a b : JobRecord) → before a b ≡ true → before b a ≡ true → a.job_id ≡ b.job_id
unfolding before
before_antisymm a b h k = ground (
  arith,
  eq_iff a.created_at b.created_at,
  eq_iff b.created_at a.created_at,
  text_leb_antisymm a.job_id b.job_id,
  text_leb_antisymm a.created_at b.created_at,
)

-- The steps are functional: what a transaction does depends on the jobs alone.
pub Does-unique : (op : Operation) (jobs a b : Jobs) → Does op jobs a → Does op jobs b → a ≡ b
Does-unique (create id version scenario optimization seed now) jobs a b h k = h ∙ sym k
Does-unique (respond id response now) jobs a b h k = h ∙ sym k
Does-unique (fail id error now) jobs a b h k = h ∙ sym k
Does-unique (claim now) jobs a b (idle none_queued h) (idle _ k) = h ∙ sym k
Does-unique (claim now) jobs a b (idle none_queued h) (taken r e s first k) =
    absurd (none_queued r.job_id r e s)
Does-unique (claim now) jobs a b (taken r e s first h) (idle none_queued k) =
    absurd (none_queued r.job_id r e s)
Does-unique (claim now) jobs a b (taken r e s first h) (taken q f t first_q k) =
    let same_id : r.job_id ≡ q.job_id =
      before_antisymm r q (first q.job_id q f t) (first_q r.job_id r e s) in
    let found : jobs r.job_id ≡ some q = rw same_id f in
    let same : r ≡ q = cc (found, e) in
    h ∙ ap (λ x. with_job x.job_id (start now x) jobs) same ∙ sym k
