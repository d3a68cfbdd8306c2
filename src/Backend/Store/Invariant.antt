-- ===== src/Backend/Store/Invariant.antt =====
-- The table's invariant, and the reads and writes of one row under it.
use planes.Base.{
  ℕ, String, ◌==◌, eq_iff, eq_refl, ◌≡◌, refl, inl, inr, Bool, true, false, not, Option, none, some,
  [], ◌∷◌, ◌++◌, arith, In, if◌then◌else◌, Bool-cases,
}
use planes.Backend.Store.{
  JobState, queued, running, completed, failed, timed_out, JobRecord, Table, find, update, rowcount,
  state_eq, has_state,
}

abbrev pub is_some : {A : Type 0} → Option A → Bool
is_some none = false
is_some (some _) = true

-- The job has ended.
abbrev pub is_terminal : JobState → Bool
is_terminal queued = false
is_terminal running = false
is_terminal _ = true

abbrev pub has_result : JobState → Bool
has_result completed = true
has_result timed_out = true
has_result _ = false

-- The columns of a row are filled as its state says.
pub record IsConsistent (r : JobRecord) : Type 0 where
  pub started : is_some r.started_at ≡ not (state_eq r.state queued)
  pub finished : is_some r.finished_at ≡ is_terminal r.state
  pub result : is_some r.result ≡ has_result r.state
  pub error : is_some r.error ≡ state_eq r.state failed

-- Every row is consistent, and no id is listed twice.
abbrev pub IsValid : Table → Type 0
IsValid [] = Unit
IsValid (r ∷ rows) = IsConsistent r × (find r.job_id rows ≡ none) × IsValid rows

-- What an UPDATE leaves of the row that a lookup finds.
abbrev pub changed :
    (JobRecord → Bool) → (JobRecord → JobRecord) → Option JobRecord → Option JobRecord
changed p f none = none
changed p f (some r) = some (if p r then f r else r)

pub find-job_id :
    (id : String) (rows : Table) (r : JobRecord) → find id rows ≡ some r → r.job_id ≡ id
unfolding find
find-job_id id [] r h = cc
find-job_id id (q ∷ rows) r h = ground (arith, eq_iff q.job_id id, find-job_id id rows r)

pub find-append :
    (id : String) (rows more : Table)
    → find id (rows ++ more) ≡ elim (find id rows) [ none ↦ find id more | some r ↦ some r ]
unfolding find
find-append id [] more = refl
find-append id (q ∷ rows) more = ground (arith, find-append id rows more)

module _ (p : JobRecord → Bool) (f : JobRecord → JobRecord)
    (keeps : (r : JobRecord) → (f r).job_id ≡ r.job_id) where
  pub find-update :
      (id : String) (rows : Table) → find id (update p f rows) ≡ changed p f (find id rows)
  unfolding find update
  find-update id [] = refl
  find-update id (q ∷ rows) =
      ground (arith, keeps q, eq_iff q.job_id id, eq_iff (f q).job_id id, find-update id rows)

  pub update-IsValid :
      ((r : JobRecord) → p r ≡ true → IsConsistent r → IsConsistent (f r))
      → (rows : Table) → IsValid rows
      → IsValid (update p f rows)
  unfolding find update
  update-IsValid good [] h = tt
  update-IsValid good (q ∷ rows) h = elim (Bool-cases (p q)) [
    | inl yes_p ↦
        rw yes_p
          (good q yes_p h.0, rw (keeps q, find-update, h.1) refl, update-IsValid good rows h.2)
    | inr no_p ↦ rw no_p (h.0, rw (find-update, h.1) refl, update-IsValid good rows h.2)
  ]

pub append-IsValid :
    (rows : Table) (r : JobRecord)
    → IsValid rows
    → IsConsistent r
    → find r.job_id rows ≡ none
    → IsValid (rows ++ r ∷ [])
unfolding find
append-IsValid [] r h good fresh = (good, refl, tt)
append-IsValid (q ∷ rows) r h good fresh = ground (
  arith,
  append-IsValid rows r h.2 good,
  find-append q.job_id rows (r ∷ []),
  eq_iff q.job_id r.job_id,
  eq_iff r.job_id q.job_id,
)

abbrev pub hits : JobState → Option JobRecord → ℕ
hits s none = 0
hits s (some r) = if state_eq r.state s then 1 else 0

-- An id that is not in the table matches no row.
pub rowcount_absent :
    (id : String) (s : JobState) (rows : Table)
    → find id rows ≡ none
    → rowcount (has_state id s) rows ≡ 0
unfolding find rowcount
rowcount_absent id s [] h = refl
rowcount_absent id s (q ∷ rows) h = ground (arith, rowcount_absent id s rows)

-- With distinct ids, a conditional UPDATE by id changes one row or none.
pub rowcount_lem :
    (id : String) (s : JobState) (rows : Table)
    → IsValid rows
    → rowcount (has_state id s) rows ≡ hits s (find id rows)
unfolding find rowcount
rowcount_lem id s [] h = refl
rowcount_lem id s (q ∷ rows) h = elim (Bool-cases (q.job_id == id)) [
  | inl same ↦
      let absent : find id rows ≡ none = rw ((eq_iff _ _).0 same) at h.1 in
      rw (same, rowcount_absent id s rows absent) refl
  | inr other_id ↦ rw other_id (rowcount_lem id s rows h.2)
]

-- A row of the table is the one that its id finds.
pub find_of_In :
    (r : JobRecord) (rows : Table) → IsValid rows → In r rows → find r.job_id rows ≡ some r
unfolding find
find_of_In r [] h m = elim m [ ]
find_of_In r (q ∷ rows) h (inl e) = rw (← e, eq_refl) refl
find_of_In r (q ∷ rows) h (inr m) =
    ground (arith, find_of_In r rows h.2 m, eq_iff q.job_id r.job_id)

-- A row that a lookup finds is a row of the table.
pub In-of_find : (id : String) (rows : Table) (r : JobRecord) → find id rows ≡ some r → In r rows
unfolding find
In-of_find id [] r h = cc
In-of_find id (q ∷ rows) r h = elim (Bool-cases (q.job_id == id)) [
  | inl same ↦ inl (ground arith)
  | inr other_id ↦ inr (In-of_find id rows r (ground arith))
]

pub IsConsistent-of_In : (r : JobRecord) (rows : Table) → IsValid rows → In r rows → IsConsistent r
IsConsistent-of_In r [] h m = elim m [ ]
IsConsistent-of_In r (q ∷ rows) h (inl e) = rw e h.0
IsConsistent-of_In r (q ∷ rows) h (inr m) = IsConsistent-of_In r rows h.2 m
