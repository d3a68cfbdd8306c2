-- ===== src/Backend/Worker/Interference.antt =====
-- Other processes' transactions leave a running job to the worker that claimed it.
use planes.Base.{
  String, ◌==◌, eq_iff, ◌≡◌, ◌≢◌, refl, sym, inl, inr, false, none, some, List, [], ◌∷◌, All,
  Bool-cases, Option-cases, eqb,
}
use planes.Base.Int.{ℤ}
use planes.Json.{Fields}
use planes.Backend.Models.{ComputeResponse}
use planes.Backend.Store.{
  queued, running, failed, JobRecord, Table, find, rowcount, has_state, start, close, Verdict,
  finish, verdict_of, finish_with_response, mark_failed, next_queued, claim_next_queued_job,
  create_job,
}
use planes.Backend.Store.Invariant.{IsValid, changed, find-update, find-append}
use planes.Backend.Store.Claim.{claim_lem, claim_none}
use planes.Backend.Store.Lifecycle.{
  Operation, create, claim, respond, fail, apply, run, create_table,
}
use planes.Backend.Store.History.{apply-IsValid}

-- The transaction does not end the job.
abbrev pub Spares : String → Operation → Type 0
Spares id (respond k _ _) = k ≢ id
Spares id (fail k _ _) = k ≢ id
Spares id _ = Unit

pub ne-eqb : (k id : String) → k ≢ id → (id == k) ≡ false
ne-eqb k id ne = elim (Bool-cases (id == k)) [
  | inl e ↦ absurd (ne (sym ((eq_iff id k).0 e)))
  | inr e ↦ e
]

module _ (id : String) (r : JobRecord) (own : r.job_id ≡ id) (busy : r.state ≡ running) where
  pub create_kept :
      (k version : String) (scenario optimization : Fields) (seed : ℤ) (now : String) (rows : Table)
      → find id rows ≡ some r
      → find id (create_job k version scenario optimization seed now rows).1 ≡ some r
  create_kept k version scenario optimization seed now rows e =
      elim (create_table k version scenario optimization seed now rows) [
        | inl same_rows ↦ rw same_rows e
        | inr (absent, more) ↦ rw (more, find-append, e) refl
      ]

  pub claim_kept :
      (now : String) (rows : Table)
      → IsValid rows
      → find id rows ≡ some r
      → find id (claim_next_queued_job now rows).1 ≡ some r
  claim_kept now rows h e = elim (Option-cases (next_queued rows)) [
    | inl idle ↦ rw (claim_none now rows idle) e
    | inr (q, first) ↦
        rw
          (
            claim_lem now rows q h first,
            find-update (has_state q.job_id queued) (start now) (λ x. refl),
            e,
          )
          (rw (not_queued q.job_id) refl)
  ]
    where
      not_queued : (k : String) → has_state k queued r ≡ false
      not_queued k = elim (Bool-cases (r.job_id == k)) [
        | inl same_id ↦ rw (same_id, busy) refl
        | inr other_id ↦ rw other_id refl
      ]

  finish_kept :
      (k : String) (v : Verdict) (now : String) (rows : Table)
      → k ≢ id
      → find id rows ≡ some r
      → find id (finish k v now rows).1 ≡ some r
  unfolding finish
  finish_kept k v now rows ne e = elim (Bool-cases (eqb (rowcount (has_state k running) rows) 1)) [
    | inl one ↦
        rw (one, find-update (has_state k running) (close v now) (λ x. refl), e)
          (foreign (rw own (ne-eqb k id ne)))
    | inr many ↦ rw many e
  ]
    where
      foreign :
          (r.job_id == k) ≡ false → changed (has_state k running) (close v now) (some r) ≡ some r
      foreign other = rw other refl

  respond_kept :
      (k : String) (response : ComputeResponse) (now : String) (rows : Table)
      → k ≢ id
      → find id rows ≡ some r
      → find id (finish_with_response k response now rows).1 ≡ some r
  unfolding finish_with_response
  respond_kept k response now rows ne e = elim (Bool-cases (response.job_id == k)) [
    | inl same_id ↦ rw same_id (finish_kept k (verdict_of response) now rows ne e)
    | inr other_id ↦ rw other_id e
  ]

  apply_kept :
      (op : Operation) (rows : Table)
      → Spares id op
      → IsValid rows
      → find id rows ≡ some r
      → find id (apply op rows) ≡ some r
  unfolding apply mark_failed
  apply_kept (create k version scenario optimization seed now) rows sp h e =
      create_kept k version scenario optimization seed now rows e
  apply_kept (claim now) rows sp h e = claim_kept now rows h e
  apply_kept (respond k response now) rows sp h e = respond_kept k response now rows sp e
  apply_kept (fail k error now) rows sp h e =
      finish_kept k (record { state = failed; result = none; error = some error }) now rows sp e

  -- A running job whose end nobody else reports stays as it is.
  pub run_kept :
      (ops : List Operation) (rows : Table)
      → All (Spares id) ops
      → IsValid rows
      → find id rows ≡ some r
      → find id (run ops rows) ≡ some r
  unfolding run
  run_kept [] rows sp h e = e
  run_kept (op ∷ ops) rows sp h e =
      run_kept ops (apply op rows) sp.1 (apply-IsValid op rows h) (apply_kept op rows sp.0 h e)
