-- ===== src/Backend/Store/Claim.antt =====
-- `claim_next_queued_job`: which row it takes, and what it does to the table.
use planes.Base.{
  String, eq_iff, eq_refl, ◌≡◌, refl, ◌≢◌, ◌↔◌, ◌⊎◌, inl, inr, Bool, true, false, none, some, [],
  ◌∷◌, arith, In, Option-cases,
}
use mathlib.Core.Path.{subst₂}
use planes.Base.Text.{text_leb_refl, text_leb_total, text_leb_trans, text_leb_antisymm}
use planes.Backend.Store.{
  JobState, queued, JobRecord, Table, find, update, rowcount, state_eq, has_state, before,
  next_queued, start, claim_row, claim_next_queued_job,
}
use planes.Backend.Store.Invariant.{
  IsValid, changed, find-update, rowcount_lem, find_of_In, find-job_id,
}

abbrev pub is_queued : JobRecord → Bool
is_queued r = state_eq r.state queued

pub before_refl : (a : JobRecord) → before a a ≡ true
unfolding before
before_refl a = rw (eq_refl, text_leb_refl) refl

before_total : (a b : JobRecord) → (before a b ≡ true) ⊎ (before b a ≡ true)
unfolding before
before_total a b = ground (
  arith,
  eq_iff a.created_at b.created_at,
  eq_iff b.created_at a.created_at,
  text_leb_total a.job_id b.job_id,
  text_leb_total a.created_at b.created_at,
)

before_trans : (a b c : JobRecord) → before a b ≡ true → before b c ≡ true → before a c ≡ true
unfolding before
before_trans a b c h k = ground (
  arith,
  eq_iff a.created_at b.created_at,
  eq_iff b.created_at c.created_at,
  eq_iff a.created_at c.created_at,
  text_leb_trans a.job_id b.job_id c.job_id,
  text_leb_trans a.created_at b.created_at c.created_at,
  text_leb_antisymm a.created_at b.created_at,
)

-- The selected row is a queued row of the table.
next_queued-In :
    (rows : Table) (r : JobRecord) → next_queued rows ≡ some r → In r rows × (is_queued r ≡ true)
unfolding next_queued
next_queued-In [] r h = cc
next_queued-In (q ∷ rows) r h = elim (Option-cases (next_queued rows)) [
  | inl e ↦ ground arith
  | inr (s, e) ↦ ground (arith, next_queued-In rows s e, next_queued-In rows r)
]

-- No row is queued exactly when none is selected.
pub next_queued-none :
    (rows : Table) (q : JobRecord) → next_queued rows ≡ none → In q rows → is_queued q ≡ false
unfolding next_queued
next_queued-none [] q h m = elim m [ ]
next_queued-none (x ∷ rows) q h m = elim (Option-cases (next_queued rows)) [
  | inl e ↦ ground (arith, next_queued-none rows q e)
  | inr (s, e) ↦ ground arith
]

-- The selected row comes before every queued row.
next_queued-first :
    (rows : Table) (r q : JobRecord)
    → next_queued rows ≡ some r
    → In q rows
    → is_queued q ≡ true
    → before r q ≡ true
unfolding next_queued
next_queued-first [] r q h m s = elim m [ ]
next_queued-first (x ∷ rows) r q h m s = elim (Option-cases (next_queued rows)) [
  | inl e ↦ ground (arith, next_queued-none rows q e, before_refl r)
  | inr (t, e) ↦
      ground
        (arith, next_queued-first rows t q e, before_refl r, before_total x t, before_trans x t q)
]

-- On a valid table the guard on `rowcount` passes for a queued row.
claim_row_lem :
    (id now : String) (rows : Table) (r : JobRecord)
    → IsValid rows
    → find id rows ≡ some r
    → is_queued r ≡ true
    → claim_row id now rows ≡ (some (start now r), update (has_state id queued) (start now) rows)
unfolding claim_row
claim_row_lem id now rows r h f s =
    let one : rowcount (has_state id queued) rows ≡ 1 =
      rw (rowcount_lem id queued rows h, f, s) refl in
    let found : find id (update (has_state id queued) (start now) rows) ≡ some (start now r) =
      rw (find-update (has_state id queued) (start now) (λ x. refl), f)
        (rw (find-job_id id rows r f, eq_refl, s) refl) in
    rw (one, found) refl

pub claim_lem :
    (now : String) (rows : Table) (r : JobRecord)
    → IsValid rows
    → next_queued rows ≡ some r
    → claim_next_queued_job now rows
      ≡ (some (start now r), update (has_state r.job_id queued) (start now) rows)
unfolding claim_next_queued_job
claim_lem now rows r h e =
    let (m, s) = next_queued-In rows r e in
    rw (e, claim_next_queued_job) (claim_row_lem r.job_id now rows r h (find_of_In r rows h m) s)

pub claim_none :
    (now : String) (rows : Table)
    → next_queued rows ≡ none
    → claim_next_queued_job now rows ≡ (none, rows)
unfolding claim_next_queued_job
claim_none now rows e = rw (e, claim_next_queued_job) refl

-- What a successful claim is: the row `r` was queued and comes before every queued row, it is the
-- only one that changes, and the job returned is that row, running.
pub record Claimed (now : String) (rows rows' : Table) (job r : JobRecord) : Type 0 where
  pub member : In r rows
  pub was_queued : r.state ≡ queued
  pub first : (q : JobRecord) → In q rows → q.state ≡ queued → before r q ≡ true
  pub job_lem : job ≡ start now r
  pub stored : find r.job_id rows' ≡ some job
  pub others : (id : String) → id ≢ r.job_id → find id rows' ≡ find id rows

pub is_queued_lem : (s : JobState) → state_eq s queued ≡ true → s ≡ queued
is_queued_lem queued h = refl
is_queued_lem _ h = cc

pub claim-Claimed :
    (now : String) (rows : Table) (r : JobRecord)
    → IsValid rows
    → next_queued rows ≡ some r
    → Claimed now rows (update (has_state r.job_id queued) (start now) rows) (start now r) r
claim-Claimed now rows r h e =
    let (m, s) = next_queued-In rows r e in
    let f : find r.job_id rows ≡ some r = find_of_In r rows h m in
    let moved = find-update (has_state r.job_id queued) (start now) (λ x. refl) in
    record {
      member = m;
      was_queued = is_queued_lem r.state s;
      first = λ q i w. next_queued-first rows r q e i (rw w refl);
      job_lem = refl;
      stored = rw (moved r.job_id rows, f) (rw (eq_refl, s) refl);
      others = λ id ne. untouched id ne moved;
    }
  where
    untouched :
        (id : String)
        → id ≢ r.job_id
        → ((k : String) (t : Table)
            → find k (update (has_state r.job_id queued) (start now) t)
              ≡ changed (has_state r.job_id queued) (start now) (find k t))
        → find id (update (has_state r.job_id queued) (start now) rows) ≡ find id rows
    untouched id ne moved = elim (Option-cases (find id rows)) [
      | inl e ↦ rw (moved id rows, e) refl
      | inr (q, e) ↦
          rw (moved id rows, e)
            (ground (arith, eq_iff q.job_id r.job_id, find-job_id id rows q e, ne))
    ]

-- On a valid table, a claim that returns a job has taken the first queued row in the order of
-- creation time and id, has set it running with its start time, and has changed no other row.
pub claim_takes_first :
    (now : String) (rows rows' : Table) (job : JobRecord)
    → IsValid rows
    → claim_next_queued_job now rows ≡ (some job, rows')
    → (r : JobRecord) × Claimed now rows rows' job r
claim_takes_first now rows rows' job h c = elim (Option-cases (next_queued rows)) [
  | inl e ↦ cc (claim_none now rows e)
  | inr (r, e) ↦
      let same = claim_lem now rows r h e in
      let table : update (has_state r.job_id queued) (start now) rows ≡ rows' = cc in
      let result : start now r ≡ job = cc in
      (r, subst₂ (λ t j. Claimed now rows t j r) table result (claim-Claimed now rows r h e))
]

-- On a valid table, a claim returns nothing and changes nothing exactly when no row is queued.
pub claim_none_iff :
    (now : String) (rows : Table)
    → IsValid rows
    → ((claim_next_queued_job now rows ≡ (none, rows))
        ↔ ((q : JobRecord) → In q rows → q.state ≢ queued))
claim_none_iff now rows h = elim (Option-cases (next_queued rows)) [
  | inl e ↦ (λ _ q m s. cc (next_queued-none rows q e m, s), λ _. claim_none now rows e)
  | inr (r, e) ↦
      let (m, s) = next_queued-In rows r e in
      (
        λ c. cc (c, claim_lem now rows r h e),
        λ none_queued. absurd (none_queued r m (is_queued_lem r.state s)),
      )
]
