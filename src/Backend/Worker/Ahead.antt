-- ===== src/Backend/Worker/Ahead.antt =====
-- How many jobs stand before one in the queue, and submissions that come after it.
use planes.Base.{ℕ, String, Bool, false, ◌&&◌, ◌≡◌, refl, inl, inr, some, List, [], ◌∷◌, All}
use planes.Backend.Store.{JobRecord, Table, find, rowcount, before, create_job, new_row}
use planes.Backend.Store.Invariant.{find-append}
use planes.Backend.Store.Claim.{is_queued}
use planes.Backend.Store.Lifecycle.{
  Operation, create, claim, respond, fail, apply, run, create_table,
}
use planes.Backend.Worker.Interference.{Spares}
use planes.Backend.Store.Counts.{rowcount-append}

-- How many queued rows do not come after the row.
abbrev pub not_after : JobRecord → JobRecord → Bool
not_after r q = is_queued q && before q r

abbrev pub ahead : JobRecord → Table → ℕ
ahead r = rowcount (not_after r)

-- The transaction submits a job that comes after the row.
abbrev pub SubmitsLater : JobRecord → Operation → Type 0
SubmitsLater r (create id version scenario optimization seed now) =
    before (new_row id version scenario optimization seed now) r ≡ false
SubmitsLater r _ = ⊥

pub Spares-later :
    (id : String) (r : JobRecord) (ops : List Operation)
    → All (SubmitsLater r) ops
    → All (Spares id) ops
Spares-later id r [] h = tt
Spares-later id r (create k v s o z t ∷ ops) h = (tt, Spares-later id r ops h.1)
Spares-later id r (claim t ∷ ops) h = absurd h.0
Spares-later id r (respond k v t ∷ ops) h = absurd h.0
Spares-later id r (fail k e t ∷ ops) h = absurd h.0

-- Later submissions change neither the rows found nor the count.
pub run-later :
    (r q : JobRecord) (id : String) (ops : List Operation) (rows : Table)
    → All (SubmitsLater r) ops
    → find id rows ≡ some q
    → (find id (run ops rows) ≡ some q) × (ahead r (run ops rows) ≡ ahead r rows)
unfolding run apply
run-later r q id [] rows h e = (e, refl)
run-later r q id (claim t ∷ ops) rows h e = absurd h.0
run-later r q id (respond k v t ∷ ops) rows h e = absurd h.0
run-later r q id (fail k x t ∷ ops) rows h e = absurd h.0
run-later r q id (create k v s o z t ∷ ops) rows h e =
    let rows₁ = (create_job k v s o z t rows).1 in
    let (kept, same) : (find id rows₁ ≡ some q) × (ahead r rows₁ ≡ ahead r rows) =
      elim (create_table k v s o z t rows) [
        | inl refused ↦ rw refused (e, refl)
        | inr (absent, more) ↦
            rw more (rw (find-append, e) refl, rowcount-append (not_after r) _ rows h.0)
      ] in
    let (found, count) = run-later r q id ops rows₁ h.1 kept in (found, rw same at count)
