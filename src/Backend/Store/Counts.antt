-- ===== src/Backend/Store/Counts.antt =====
-- How conditional updates of the table change the rows found and counted.
use planes.Base.{
  ◌≤◌, ◌<◌, String, Bool, true, false, ◌==◌, eq_iff, ◌≡◌, refl, inl, inr, some, [], ◌∷◌, ◌++◌,
  arith, In,
}
use planes.Backend.Store.{
  JobState, queued, running, completed, failed, timed_out, JobRecord, Table, find, update, rowcount,
  state_eq, has_state,
}
use planes.Backend.Store.Invariant.{is_terminal, find-update}

module _ (p c : JobRecord → Bool) (f : JobRecord → JobRecord)
    (fewer : (q : JobRecord) → p (f q) ≡ true → p q ≡ true) where
  pub rowcount-update : (rows : Table) → rowcount p (update c f rows) ≤ rowcount p rows
  unfolding rowcount update
  rowcount-update [] = omega arith
  rowcount-update (q ∷ rows) = ground (arith, fewer q, rowcount-update rows)

  -- A counted row that is changed into one that is not counted is one less.
  pub rowcount-update-< :
      (rows : Table) (q : JobRecord)
      → In q rows
      → c q ≡ true
      → p q ≡ true
      → p (f q) ≡ false
      → rowcount p (update c f rows) < rowcount p rows
  unfolding rowcount update
  rowcount-update-< [] q m hc hp hf = elim m [ ]
  rowcount-update-< (x ∷ rows) q (inl e) hc hp hf =
      rw (← e, hc, hf, hp) (let l = rowcount-update rows in omega (arith, l))
  rowcount-update-< (x ∷ rows) q (inr m) hc hp hf =
      ground (arith, fewer x, rowcount-update-< rows q m hc hp hf)

pub rowcount-append :
    (p : JobRecord → Bool) (r : JobRecord) (rows : Table)
    → p r ≡ false
    → rowcount p (rows ++ r ∷ []) ≡ rowcount p rows
unfolding rowcount
rowcount-append p r [] h = rw h refl
rowcount-append p r (q ∷ rows) h = ground (arith, rowcount-append p r rows h)

pub rowcount-pos :
    (p : JobRecord → Bool) (q : JobRecord) (rows : Table)
    → In q rows
    → p q ≡ true
    → 1 ≤ rowcount p rows
unfolding rowcount
rowcount-pos p q [] m h = elim m [ ]
rowcount-pos p q (x ∷ rows) (inl e) h = rw (← e, h) (omega arith)
rowcount-pos p q (x ∷ rows) (inr m) h = ground (arith, rowcount-pos p q rows m h)

pub terminal-not_queued : (s : JobState) → is_terminal s ≡ true → state_eq s queued ≡ false
terminal-not_queued queued h = cc
terminal-not_queued running h = cc
terminal-not_queued completed h = refl
terminal-not_queued failed h = refl
terminal-not_queued timed_out h = refl

-- An UPDATE that does not select a row leaves it.
pub find-update-spared :
    (p : JobRecord → Bool) (f : JobRecord → JobRecord)
    → ((x : JobRecord) → (f x).job_id ≡ x.job_id)
    → (id : String) (rows : Table) (q : JobRecord) → find id rows ≡ some q
    → p q ≡ false
    → find id (update p f rows) ≡ some q
find-update-spared p f keeps id rows q e h = rw (find-update p f keeps, e) (rw h refl)

pub find-update-taken :
    (p : JobRecord → Bool) (f : JobRecord → JobRecord)
    → ((x : JobRecord) → (f x).job_id ≡ x.job_id)
    → (id : String) (rows : Table) (q : JobRecord) → find id rows ≡ some q
    → p q ≡ true
    → find id (update p f rows) ≡ some (f q)
find-update-taken p f keeps id rows q e h = rw (find-update p f keeps, e) (rw h refl)

pub spared_by_state :
    (id : String) (s : JobState) (q : JobRecord)
    → state_eq q.state s ≡ false
    → has_state id s q ≡ false
spared_by_state id s q h = ground arith

pub spared_by_id :
    (id : String) (s : JobState) (q : JobRecord)
    → (q.job_id == id) ≡ false
    → has_state id s q ≡ false
spared_by_id id s q h = ground arith

pub own_state :
    (s : JobState) (q : JobRecord) → state_eq q.state s ≡ true → has_state q.job_id s q ≡ true
own_state s q h = ground (arith, eq_iff q.job_id q.job_id)

pub terminal-not_running : (s : JobState) → is_terminal s ≡ true → state_eq s running ≡ false
terminal-not_running queued h = cc
terminal-not_running running h = cc
terminal-not_running completed h = refl
terminal-not_running failed h = refl
terminal-not_running timed_out h = refl
