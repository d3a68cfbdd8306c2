-- ===== src/Backend/Store/Lifecycle.antt =====
-- Sequences of transactions on the table, as several processes issue them: the invariant, the path
-- of each job through its states, and how often a job is claimed.
use planes.Base.{
  String, ◌==◌, ◌≡◌, refl, ◌⊎◌, inl, inr, true, not, Option, none, some, List, [], ◌∷◌, ◌++◌, arith,
  Bool-cases, Option-cases, eqb,
}
use planes.Base.Int.{ℤ}
use planes.Json.{Fields}
use planes.Backend.Models.{ComputeResponse}
use planes.Backend.Store.{
  JobState, queued, running, completed, failed, timed_out, JobRecord, Table, find, rowcount,
  state_eq, has_state, next_queued, start, claim_next_queued_job, create_job, new_row, fits_int64,
  Verdict, close, finish, verdict_of, finish_with_response, mark_failed,
}
use planes.Backend.Store.Invariant.{
  is_some, is_terminal, has_result, IsConsistent, IsValid, changed, find-update, update-IsValid,
  append-IsValid, find-append,
}
use planes.Backend.Store.Claim.{claim_lem, claim_none}

pub data Operation : Type 0 where
  create : String → String → Fields → Fields → ℤ → String → Operation
  claim : String → Operation
  respond : String → ComputeResponse → String → Operation
  fail : String → Fields → String → Operation

-- The table after the transaction, whether or not it raised.
unfoldable pub apply : Operation → Table → Table
apply (create id version scenario optimization seed now) rows =
    (create_job id version scenario optimization seed now rows).1
apply (claim now) rows = (claim_next_queued_job now rows).1
apply (respond id response now) rows = (finish_with_response id response now rows).1
apply (fail id error now) rows = (mark_failed id error now rows).1

unfoldable pub run : List Operation → Table → Table
run [] rows = rows
run (op ∷ ops) rows = run ops (apply op rows)

-- What one transaction does to the row of one id: nothing, or one step of the life cycle.
pub data Moves (before after : Option JobRecord) : Type 0 where
  same : after ≡ before → Moves before after
  inserted :
      (r : JobRecord) → before ≡ none → after ≡ some r → r.state ≡ queued → Moves before after
  started :
      (r : JobRecord) (now : String)
      → before ≡ some r
      → r.state ≡ queued
      → after ≡ some (start now r)
      → Moves before after
  ended :
      (r : JobRecord) (v : Verdict) (now : String)
      → before ≡ some r
      → r.state ≡ running
      → is_terminal v.state ≡ true
      → after ≡ some (close v now r)
      → Moves before after

-- The columns that a verdict fills.
pub record IsVerdict (v : Verdict) : Type 0 where
  pub terminal : is_terminal v.state ≡ true
  pub result : is_some v.result ≡ has_result v.state
  pub error : is_some v.error ≡ state_eq v.state failed

pub verdict_of-IsVerdict : (response : ComputeResponse) → IsVerdict (verdict_of response)
unfolding verdict_of
verdict_of-IsVerdict response = ground arith

has_state-eq : (s t : JobState) → state_eq s t ≡ true → s ≡ t
has_state-eq queued queued h = refl
has_state-eq running running h = refl
has_state-eq completed completed h = refl
has_state-eq failed failed h = refl
has_state-eq timed_out timed_out h = refl
has_state-eq _ _ h = cc

-- The columns of a started and of an ended row.
start-IsConsistent :
    (now : String) (r : JobRecord) → r.state ≡ queued → IsConsistent r → IsConsistent (start now r)
start-IsConsistent now r s h = record {
  started = refl;
  finished = rw (h.finished, s) refl;
  result = rw (h.result, s) refl;
  error = rw (h.error, s) refl;
}

terminal-started : (s : JobState) → is_terminal s ≡ true → not (state_eq s queued) ≡ true
terminal-started queued h = cc
terminal-started running h = cc
terminal-started _ h = refl

pub close-IsConsistent :
    (v : Verdict) (now : String) (r : JobRecord)
    → IsVerdict v
    → r.state ≡ running
    → IsConsistent r
    → IsConsistent (close v now r)
close-IsConsistent v now r good s h = record {
  started = rw (h.started, s, terminal-started v.state good.terminal) refl;
  finished = rw good.terminal refl;
  result = good.result;
  error = good.error;
}

pub has_state-state :
    (id : String) (s : JobState) (r : JobRecord) → has_state id s r ≡ true → r.state ≡ s
has_state-state id s r h = elim (Bool-cases (r.job_id == id)) [
  | inl own ↦ has_state-eq r.state s (rw own at h)
  | inr foreign ↦ cc (rw foreign at h)
]

-- `finish` with a proper verdict: the invariant, and one step at most for each id.
module _ (id : String) (v : Verdict) (now : String) (good : IsVerdict v) where
  pub finish-IsValid : (rows : Table) → IsValid rows → IsValid (finish id v now rows).1
  unfolding finish
  finish-IsValid rows h = elim (Bool-cases (eqb (rowcount (has_state id running) rows) 1)) [
    | inl one ↦ rw one (
        update-IsValid (has_state id running) (close v now) (λ r. refl)
          (λ r p c. close-IsConsistent v now r good (has_state-state id running r p) c) rows h)
    | inr other_count ↦ rw other_count h
  ]

  closed-Moves : (o : Option JobRecord) → Moves o (changed (has_state id running) (close v now) o)
  closed-Moves none = same refl
  closed-Moves (some r) = elim (Bool-cases (has_state id running r)) [
    | inl p ↦ ended r v now refl (has_state-state id running r p) good.terminal (rw p refl)
    | inr p ↦ same (rw p refl)
  ]

  pub finish-Moves :
      (k : String) (rows : Table) → Moves (find k rows) (find k (finish id v now rows).1)
  unfolding finish
  finish-Moves k rows = elim (Bool-cases (eqb (rowcount (has_state id running) rows) 1)) [
    | inl one ↦
        rw (one, find-update (has_state id running) (close v now) (λ r. refl))
          (closed-Moves (find k rows))
    | inr other_count ↦ rw other_count (same refl)
  ]

started-Moves :
    (id now : String) (o : Option JobRecord) → Moves o (changed (has_state id queued) (start now) o)
started-Moves id now none = same refl
started-Moves id now (some r) = elim (Bool-cases (has_state id queued r)) [
  | inl p ↦ started r now refl (has_state-state id queued r p) (rw p refl)
  | inr p ↦ same (rw p refl)
]

pub claim-IsValid :
    (now : String) (rows : Table) → IsValid rows → IsValid (claim_next_queued_job now rows).1
claim-IsValid now rows h = elim (Option-cases (next_queued rows)) [
  | inl e ↦ rw (claim_none now rows e) h
  | inr (r, e) ↦ rw (claim_lem now rows r h e) (
      update-IsValid (has_state r.job_id queued) (start now) (λ q. refl)
        (λ q p c. start-IsConsistent now q (has_state-state r.job_id queued q p) c) rows h)
]

pub claim-Moves :
    (now k : String) (rows : Table)
    → IsValid rows
    → Moves (find k rows) (find k (claim_next_queued_job now rows).1)
claim-Moves now k rows h = elim (Option-cases (next_queued rows)) [
  | inl e ↦ rw (claim_none now rows e) (same refl)
  | inr (r, e) ↦
      rw (claim_lem now rows r h e, find-update (has_state r.job_id queued) (start now) (λ q. refl))
        (started-Moves r.job_id now (find k rows))
]

module _ (id version : String) (scenario optimization : Fields) (seed : ℤ) (now : String) where
  abbrev pub fresh : JobRecord
  fresh = new_row id version scenario optimization seed now

  -- An accepted job is appended as a queued row; a refused one leaves the table alone.
  pub create_table :
      (rows : Table)
      → (((create_job id version scenario optimization seed now rows).1 ≡ rows)
          ⊎ ((find id rows ≡ none)
              × ((create_job id version scenario optimization seed now rows).1
                  ≡ rows ++ fresh ∷ [])))
  unfolding create_job
  create_table rows = elim (Bool-cases (fits_int64 seed)) [
    | inr big ↦ inl (rw big refl)
    | inl fits ↦ elim (Option-cases (find id rows)) [
      | inl e ↦ inr (e, rw (fits, e) refl)
      | inr (r, e) ↦ inl (rw (fits, e) refl)
    ]
  ]

  pub create-IsValid :
      (rows : Table)
      → IsValid rows
      → IsValid (create_job id version scenario optimization seed now rows).1
  create-IsValid rows h = elim (create_table rows) [
    | inl e ↦ rw e h
    | inr (absent, e) ↦ rw e (
        append-IsValid rows fresh h
          (record { started = refl; finished = refl; result = refl; error = refl }) absent)
  ]

  appended-Moves :
      (k : String) (rows : Table)
      → find id rows ≡ none
      → Moves (find k rows) (find k (rows ++ fresh ∷ []))
  unfolding find
  appended-Moves k rows absent = elim (Option-cases (find k rows)) [
    | inr (r, e) ↦ same (rw find-append (rw e refl))
    | inl e ↦ elim (Bool-cases (id == k)) [
      | inl own ↦ inserted fresh e (rw find-append (rw (e, own) refl)) refl
      | inr foreign ↦ same (rw find-append (rw (e, foreign) refl))
    ]
  ]

  pub create-Moves :
      (k : String) (rows : Table)
      → Moves (find k rows) (find k (create_job id version scenario optimization seed now rows).1)
  create-Moves k rows = elim (create_table rows) [
    | inl e ↦ same (rw e refl)
    | inr (absent, e) ↦ rw e (appended-Moves k rows absent)
  ]
