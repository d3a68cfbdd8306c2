-- ===== src/Backend/Store.antt =====
-- backend/store.py: the table of jobs and the transactions on it. A transaction is one function on
-- the list of rows, as SQLite runs it under its lock; the clock's reading comes as an argument. A
-- JSON column holds the value that its text encodes.
pub mod Invariant
pub mod Claim
pub mod Lifecycle
pub mod History
pub mod Counts
pub mod Abstract
pub mod Refinement
use planes.Base.{
  ℕ, suc, ◌-◌, ◌^◌, String, ◌==◌, Bool, true, false, not, ◌&&◌, ◌||◌, Option, none, some, List, [],
  ◌∷◌, ◌++◌, leb, eqb, if◌then◌else◌,
}
use planes.Base.Int.{ℤ, pos, negsuc}
use planes.Base.Text.{text_leb, f_string}
use planes.Base.Result.{
  Error, Result, ok, err, raise, value_error, overflow_error, runtime_error, integrity_error,
}
use planes.Json.{Json, Fields, null, str, obj, end, field}
use planes.Backend.Models.{ComputeResponse, to_dict}

-- the values that the CHECK constraint of the column `state` allows
pub data JobState : Type 0 where
  queued running completed failed timed_out : JobState

abbrev pub state_eq : JobState → JobState → Bool
state_eq queued queued = true
state_eq running running = true
state_eq completed completed = true
state_eq failed failed = true
state_eq timed_out timed_out = true
state_eq _ _ = false

-- A row of the table `jobs`, decoded as `_to_record` does.
pub record JobRecord : Type 0 where
  pub job_id : String
  pub version : String
  pub state : JobState
  pub scenario : Fields
  pub optimization : Fields
  pub seed : ℤ
  pub result : Option Fields
  pub error : Option Fields
  pub created_at : String
  pub started_at : Option String
  pub finished_at : Option String

abbrev pub Table : Type 0
Table = List JobRecord

-- `SELECT * FROM jobs WHERE job_id = ?`
unfoldable pub find : String → Table → Option JobRecord
find id [] = none
find id (r ∷ rows) = if r.job_id == id then some r else find id rows

-- `UPDATE jobs SET … WHERE …`: the rows, and how many were changed.
unfoldable pub update : (JobRecord → Bool) → (JobRecord → JobRecord) → Table → Table
update p f [] = []
update p f (r ∷ rows) = (if p r then f r else r) ∷ update p f rows

unfoldable pub rowcount : (JobRecord → Bool) → Table → ℕ
rowcount p [] = 0
rowcount p (r ∷ rows) = let n = rowcount p rows in if p r then suc n else n

-- An INTEGER column takes 64-bit values; sqlite3 refuses to bind any other.
abbrev pub fits_int64 : ℤ → Bool
fits_int64 (pos n) = leb n (2 ^ 63 - 1)
fits_int64 (negsuc n) = leb n (2 ^ 63 - 1)

abbrev pub new_row : String → String → Fields → Fields → ℤ → String → JobRecord
new_row id version scenario optimization seed now = record {
  job_id = id;
  version = version;
  state = queued;
  scenario = scenario;
  optimization = optimization;
  seed = seed;
  result = none;
  error = none;
  created_at = now;
  started_at = none;
  finished_at = none;
}

abbrev pub reload : Option JobRecord → Result JobRecord
reload none = raise runtime_error "created job could not be reloaded"
reload (some r) = ok r

-- `create_job`: the key is unique, and the new row is read again.
unfoldable pub create_job :
    String → String → Fields → Fields → ℤ → String → Table → Result JobRecord × Table
unfolding find
create_job id version scenario optimization seed now rows =
    if fits_int64 seed
    then elim (find id rows) [
      | some _ ↦ (raise integrity_error "UNIQUE constraint failed: jobs.job_id", rows)
      | none ↦
          let rows' = rows ++ new_row id version scenario optimization seed now ∷ [] in
          (reload (find id rows'), rows')
    ]
    else (raise overflow_error "Python int too large to convert to SQLite INTEGER", rows)

-- `ORDER BY created_at, job_id`
unfoldable pub before : JobRecord → JobRecord → Bool
before a b =
    if a.created_at == b.created_at
    then text_leb a.job_id b.job_id
    else text_leb a.created_at b.created_at

abbrev earlier : JobRecord → Option JobRecord → Option JobRecord
earlier r none = some r
earlier r (some q) = if before r q then some r else some q

-- `SELECT job_id … WHERE state = 'queued' ORDER BY created_at, job_id LIMIT 1`
unfoldable pub next_queued : Table → Option JobRecord
unfolding before
next_queued [] = none
next_queued (r ∷ rows) =
    let rest = next_queued rows in if state_eq r.state queued then earlier r rest else rest

abbrev pub has_state : String → JobState → JobRecord → Bool
has_state id s r = r.job_id == id && state_eq r.state s

abbrev pub start : String → JobRecord → JobRecord
start now r = record r { state = running; started_at = some now }

-- The claim of one selected row, with the second guard on `rowcount`.
unfoldable pub claim_row : String → String → Table → Option JobRecord × Table
unfolding find update rowcount
claim_row id now rows =
    if eqb (rowcount (has_state id queued) rows) 1
    then (let rows' = update (has_state id queued) (start now) rows in (find id rows', rows'))
    else (none, rows)

-- `claim_next_queued_job`
unfoldable pub claim_next_queued_job : String → Table → Option JobRecord × Table
unfolding next_queued claim_row
claim_next_queued_job now rows = elim (next_queued rows) [
  | none ↦ (none, rows)
  | some r ↦ claim_row r.job_id now rows
]

-- What `_finish` writes.
pub record Verdict : Type 0 where
  pub state : JobState
  pub result : Option Fields
  pub error : Option Fields

abbrev pub close : Verdict → String → JobRecord → JobRecord
close v now r = record r {
  state = v.state;
  result = v.result;
  error = v.error;
  finished_at = some now;
}

-- `_finish`: the transaction is rolled back when it did not change exactly one row.
unfoldable pub finish : String → Verdict → String → Table → Result (Unit {0}) × Table
unfolding update rowcount
finish id v now rows =
    if eqb (rowcount (has_state id running) rows) 1
    then (ok tt, update (has_state id running) (close v now) rows)
    else (raise runtime_error (f_string ("job " ∷ id ∷ " is not in running state" ∷ [])), rows)

-- The state and the columns that `finish_with_response` derives from the outcome.
unfoldable pub verdict_of : ComputeResponse → Verdict
unfolding to_dict
verdict_of response =
    let payload = to_dict response in
    if response.outcome == "feasible" || response.outcome == "infeasible"
    then record { state = completed; result = some payload; error = none }
    else if response.outcome == "timed_out"
    then record { state = timed_out; result = some payload; error = none }
    else record { state = failed; result = none; error = some payload }

unfoldable pub finish_with_response :
    String → ComputeResponse → String → Table → Result (Unit {0}) × Table
unfolding finish verdict_of
finish_with_response id response now rows =
    if response.job_id == id
    then finish id (verdict_of response) now rows
    else (raise value_error "engine response job_id does not match claimed job", rows)

unfoldable pub mark_failed : String → Fields → String → Table → Result (Unit {0}) × Table
unfolding finish
mark_failed id error now rows =
    finish id (record { state = failed; result = none; error = some error }) now rows
