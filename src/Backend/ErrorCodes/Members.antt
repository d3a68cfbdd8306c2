-- ===== src/Backend/ErrorCodes/Members.antt =====
-- Which limitations the classification of backend/error_codes.py reads.
use planes.Base.{
  String, eq_iff, Bool, true, false, ◌||◌, ◌==◌, ◌≡◌, refl, inl, inr, List, [], ◌∷◌, ◌++◌, contains,
  Bool-cases,
}
use planes.Json.{Fields, get}
use planes.Backend.ErrorCodes.Signals.{
  limitations_of, extend_new, signal_texts, dict_of, collect_signals,
}

or_assoc : (a b c : Bool) → (a || (b || c)) ≡ ((a || b) || c)
or_assoc true b c = refl
or_assoc false b c = refl

contains-append :
    (k : String) (xs ys : List String) → contains k (xs ++ ys) ≡ (contains k xs || contains k ys)
contains-append k [] ys = refl
contains-append k (x ∷ xs) ys =
    rw (contains-append k xs ys) (or_assoc (k == x) (contains k xs) (contains k ys))

or_false : (a : Bool) → a ≡ (a || false)
or_false true = refl
or_false false = refl

extend_new_old :
    (ls ts : List String) (t : String)
    → contains t ls ≡ true
    → extend_new ls (t ∷ ts) ≡ extend_new ls ts
unfolding extend_new
extend_new_old ls ts t h = rw (extend_new, h) refl

extend_new_fresh :
    (ls ts : List String) (t : String)
    → contains t ls ≡ false
    → extend_new ls (t ∷ ts) ≡ extend_new (ls ++ t ∷ []) ts
unfolding extend_new
extend_new_fresh ls ts t h = rw (extend_new, h) refl

absorbed : (a b c : Bool) → (b ≡ true → a ≡ true) → (a || c) ≡ (a || (b || c))
absorbed true b c h = refl
absorbed false true c h = cc (h refl)
absorbed false false c h = refl

contains-extend_new :
    (k : String) (ls ts : List String)
    → contains k (extend_new ls ts) ≡ (contains k ls || contains k ts)
unfolding extend_new
contains-extend_new k ls [] = or_false (contains k ls)
contains-extend_new k ls (t ∷ ts) = elim (Bool-cases (contains t ls)) [
  | inl old ↦
      rw (extend_new_old ls ts t old, contains-extend_new k ls ts)
        (absorbed (contains k ls) (k == t) (contains k ts) (same old))
  | inr fresh ↦
      rw
        (
          extend_new_fresh ls ts t fresh,
          contains-extend_new k (ls ++ t ∷ []) ts,
          contains-append k ls (t ∷ []),
        )
        (regroup (contains k ls) (k == t) (contains k ts))
]
  where
    same : contains t ls ≡ true → (k == t) ≡ true → contains k ls ≡ true
    same old e = rw ((eq_iff k t).0 e) old

    regroup : (a b c : Bool) → ((a || (b || false)) || c) ≡ (a || (b || c))
    regroup true b c = refl
    regroup false true c = refl
    regroup false false c = refl

-- The limitations that are read are exactly those of the two reports and the texts that the payload
-- and its nested error hold.
pub contains-collect_signals :
    (payload : Fields) (k : String)
    → contains k (collect_signals payload).limitations ≡ (
        contains k (limitations_of (get "solver_report" payload))
        || contains k (limitations_of (get "solver_report" (dict_of (get "error" payload))))
        || contains k (signal_texts payload))
unfolding collect_signals
contains-collect_signals payload k =
    let error = dict_of (get "error" payload) in
    let above = limitations_of (get "solver_report" payload) in
    let below = limitations_of (get "solver_report" error) in
    rw
      (contains-extend_new k (above ++ below) (signal_texts payload), contains-append k above below)
      refl
