-- ===== src/Runtime/Enumeration/Calls/Limits.antt =====
-- The calls of `run_candidates`: which cards are called, and with what time limits.
use planes.Base.{
  inl, inr, ◌≢◌, leb→le, ℕ, suc, ◌/◌, ◌≤◌, ◌<◌, String, true, false, ◌≡◌, refl, sym, ap, subst, ◌∙◌,
  Option, none, some, List, [], ◌∷◌, leb, length, Bool-cases, arith,
}
use planes.Base.Int.{ℤ, pos, negsuc, ltb_ℤ}
use planes.Base.Result.{Result, ok, >>=-eq-ok, ok-injective}
use planes.Json.{
  Float, Number, nan, infinity, neg_infinity, finite, float, Json, Fields, null, bool, num, str,
  arr, obj,
}
use planes.Json.Numbers.{to_float, unit, float_ltb}
use planes.Json.Numbers.Arithmetic.{to_int, float_sub, one_float}
use planes.Runtime.Enumeration.{Candidate, Attempt, is_limit, exact_limit, positive_int}
use planes.Runtime.Enumeration.Admission.Cards.{Checked, Prepared, prepare}
use planes.Runtime.Enumeration.Calls.{
  min_limit, call_limit, Calls, solver_result, call_core, call_then, run_from, EnumerationResult,
  run_built, run_candidates,
}

unit_pos : 0 < unit
unfolding unit
unit_pos = omega arith

whole_pos : (n : ℕ) → unit ≤ n → 1 ≤ n / unit
unfolding unit
whole_pos n h = omega arith

not_below_unit : (n : ℕ) → float_ltb (finite (pos n)) one_float ≡ false → unit ≤ n
unfolding float_ltb
not_below_unit n h = ground arith

negative_below : (n : ℕ) → float_ltb (finite (negsuc n)) one_float ≡ false → ⊥
unfolding float_ltb
negative_below n h = ground arith

whole_seconds :
    (r : Float) (z : ℤ)
    → float_ltb r one_float ≡ false
    → to_int (float r) ≡ ok z
    → (l : ℕ) × (z ≡ pos l) × (1 ≤ l)
unfolding to_int float_ltb
whole_seconds nan z h e = cc
whole_seconds infinity z h e = cc
whole_seconds neg_infinity z h e = cc
whole_seconds (finite (negsuc n)) z h e = absurd (negative_below n h)
whole_seconds (finite (pos n)) z h e =
    (n / unit, sym (ok-injective e), whole_pos n (not_below_unit n h))

min_limit-bounds :
    (limit l : ℕ)
    → 1 ≤ limit
    → 1 ≤ l
    → (m : ℕ) × (min_limit limit (pos l) ≡ pos m) × (1 ≤ m) × (m ≤ limit)
min_limit-bounds limit l h k = elim (Bool-cases (ltb_ℤ (pos l) (pos limit))) [
  | inl less ↦ (l, rw less refl, k, ground arith)
  | inr more ↦ (limit, rw more refl, h, omega arith)
]

call_limit-bounds :
    (deadline : Option Float) (reading : Float) (limit : ℕ) (z : ℤ)
    → 1 ≤ limit
    → call_limit deadline reading limit ≡ ok (some z)
    → (m : ℕ) × (z ≡ pos m) × (1 ≤ m) × (m ≤ limit)
unfolding call_limit
call_limit-bounds none reading limit z h e =
    (limit, some-injective (ok-injective (sym e)), h, omega arith)
  where
    some-injective : {a b : ℤ} → some a ≡ some b → a ≡ b
    some-injective e = cc
call_limit-bounds (some deadline) reading limit z h e =
    elim (Bool-cases (float_ltb (float_sub deadline reading) one_float)) [
      | inl late ↦ absurd (nothing (ok-injective (rw late at e)))
      | inr early ↦
          let (y, t, k) =
            >>=-eq-ok (to_int (float (float_sub deadline reading))) _ (rw early at e) in
          let (l, el, one) = whole_seconds (float_sub deadline reading) y early t in
          let (m, em, lo, hi) = min_limit-bounds limit l h one in
          (m, some-back (ok-injective k) ∙ ap (min_limit limit) el ∙ em, lo, hi)
    ]
  where
    nothing : {a : ℤ} → none ≡ some a → ⊥
    nothing e = cc

    some-back : {a b : ℤ} → some a ≡ some b → b ≡ a
    some-back e = cc

no_deadline :
    (reading : Float) (limit : ℕ) (o : Option ℤ)
    → call_limit none reading limit ≡ ok o
    → o ≡ some (pos limit)
unfolding call_limit
no_deadline reading limit o e = sym (ok-injective e)

exact_limit-pos :
    (n : Number) (label : String) (z : ℤ) (limit : ℕ) → exact_limit n label z ≡ ok limit → 1 ≤ limit
exact_limit-pos n label (negsuc k) limit h = cc
exact_limit-pos n label (pos k) limit h = elim (Bool-cases (leb 1 k)) [
  | inr low ↦ cc (rw low at h)
  | inl high ↦
      let (x, e, h₁) = >>=-eq-ok (to_float n) _ (rw high at h) in
      elim (Bool-cases (is_limit k x)) [
        | inr other ↦ cc (rw other at h₁)
        | inl same ↦
            let le : 1 ≤ k = leb→le 1 k high in
            let eq : k ≡ limit = ok-injective (rw same at h₁) in omega (arith, le, eq)
      ]
]

positive_int-pos :
    (j : Json) (label : String) (limit : ℕ) → positive_int j label ≡ ok limit → 1 ≤ limit
unfolding positive_int
positive_int-pos (num n) label limit h =
    let (z, e, h₁) = >>=-eq-ok (to_int n) _ h in exact_limit-pos n label z limit h₁
positive_int-pos null label limit h = cc
positive_int-pos (bool b) label limit h = cc
positive_int-pos (str s) label limit h = cc
positive_int-pos (arr xs) label limit h = cc
positive_int-pos (obj fs) label limit h = cc

module _ {Data : Type 0} (with_limit : ℤ → Data → Data) (core : Data → ℤ → Result Json) (seed : ℤ)
    (time_limit : Json) (deadline : Option Float) (clock : ℕ → Float) where
  -- The attempt is the call of the candidate under a limit of at least a second, and what the core
  -- answered.
  pub record IsCall (limit : ℕ) (a : Attempt Data) (c : Candidate Data) : Type 0 where
    pub seconds : ℕ
    pub least : 1 ≤ seconds
    pub most : seconds ≤ limit
    pub board : a.board_id ≡ c.board_id
    pub payload : a.payload ≡ with_limit (pos seconds) c.payload
    pub answered : core a.payload seed ≡ ok (obj a.result)

  -- The attempts are the calls of the first candidates, in their order.
  abbrev pub AreCalls : ℕ → List (Attempt Data) → List (Candidate Data) → Type 0
  AreCalls limit [] cs = Unit
  AreCalls limit (a ∷ attempts) [] = ⊥
  AreCalls limit (a ∷ attempts) (c ∷ cs) = IsCall limit a c × AreCalls limit attempts cs

  -- What the loop did: its calls, and whether all candidates were called.
  pub record IsRun (limit : ℕ) (calls : Calls with_limit core seed time_limit deadline clock)
      (cs : List (Candidate Data)) : Type 0 where
    pub called : AreCalls limit calls.0 cs
    pub all_called : calls.1 ≡ false → length calls.0 ≡ length cs
    pub stopped : calls.1 ≡ true → (length calls.0 < length cs) × (deadline ≢ none)

  call_core-IsCall :
      (limit m : ℕ) (c : Candidate Data) (a : Attempt Data)
      → 1 ≤ m
      → m ≤ limit
      → call_core with_limit core seed time_limit deadline clock c (pos m) ≡ ok a
      → IsCall limit a c
  call_core-IsCall limit m c a lo hi h =
      let (answer, e, h₁) = >>=-eq-ok (core (with_limit (pos m) c.payload) seed) _ h in
      let (result, f, h₂) =
        >>=-eq-ok (solver_result with_limit core seed time_limit deadline clock answer) _ h₁ in
      subst (λ x. IsCall limit x c) (ok-injective h₂)
        (record {
          seconds = m;
          least = lo;
          most = hi;
          board = refl;
          payload = refl;
          answered = e ∙ ap ok (was_dict answer result f);
        })
    where
      was_dict :
          (j : Json) (fs : Fields)
          → solver_result with_limit core seed time_limit deadline clock j ≡ ok fs
          → j ≡ obj fs
      was_dict (obj x) fs f = cc
      was_dict null fs f = cc
      was_dict (bool b) fs f = cc
      was_dict (num n) fs f = cc
      was_dict (str s) fs f = cc
      was_dict (arr xs) fs f = cc

  then-IsRun :
      (limit : ℕ) (c : Candidate Data) (cs : List (Candidate Data)) (next : Option ℤ)
      (rest : Result (Calls with_limit core seed time_limit deadline clock))
      (calls : Calls with_limit core seed time_limit deadline clock)
      → ((z : ℤ) → next ≡ some z → (m : ℕ) × (z ≡ pos m) × (1 ≤ m) × (m ≤ limit))
      → (next ≡ none → deadline ≢ none)
      → ((more : Calls with_limit core seed time_limit deadline clock)
          → rest ≡ ok more
          → IsRun limit more cs)
      → call_then with_limit core seed time_limit deadline clock c next rest ≡ ok calls
      → IsRun limit calls (c ∷ cs)
  then-IsRun limit c cs none rest calls bounds late more h =
      subst (λ x. IsRun limit x (c ∷ cs)) (ok-injective h)
        (record {
          called = tt;
          all_called = λ e. absurd (apart e);
          stopped = λ e. (omega arith, late refl);
        })
    where
      apart : true ≡ false → ⊥
      apart e = cc
  then-IsRun limit c cs (some z) rest calls bounds late more h =
      let (m, e, lo, hi) = bounds z refl in
      let (a, k, h₁) =
        >>=-eq-ok (call_core with_limit core seed time_limit deadline clock c z) _ h in
      let (others, l, h₂) = >>=-eq-ok rest _ h₁ in
      let run : IsRun limit others cs = more others l in
      subst (λ x. IsRun limit x (c ∷ cs)) (ok-injective h₂)
        (record {
          called = (call_core-IsCall limit m c a lo hi (rw (← e) k), run.called);
          all_called = λ f. ap suc (run.all_called f);
          stopped = λ f. let (fewer, due) = run.stopped f in (omega (arith, fewer), due);
        })

  run_from-IsRun :
      (limit : ℕ)
      → positive_int time_limit "time_limit_s" ≡ ok limit
      → 1 ≤ limit
      → (index : ℕ) (cs : List (Candidate Data))
        (calls : Calls with_limit core seed time_limit deadline clock)
      → run_from with_limit core seed time_limit deadline clock index cs ≡ ok calls
      → IsRun limit calls cs
  unfolding run_from
  run_from-IsRun limit p lo index [] calls h =
      subst (λ x. IsRun limit x []) (ok-injective h)
        (record { called = tt; all_called = λ e. refl; stopped = λ e. absurd (apart e) })
    where
      apart : false ≡ true → ⊥
      apart e = cc
  run_from-IsRun limit p lo index (c ∷ cs) calls h =
      let (next, e, k) = >>=-eq-ok (call_limit deadline (clock index) limit) _ (rw p at h) in
      then-IsRun limit c cs next _ calls
        (λ z f. call_limit-bounds deadline (clock index) limit z lo (e ∙ ap ok f))
        (λ f d. never next e f d) (λ more l. run_from-IsRun limit p lo (suc index) cs more l) k
    where
      never :
          (next : Option ℤ)
          → call_limit deadline (clock index) limit ≡ ok next
          → next ≡ none
          → deadline ≡ none
          → ⊥
      never next e f d = some-none (sym (no_deadline (clock index) limit next (rw d at e)) ∙ f)
        where
          some-none : some (pos limit) ≡ none → ⊥
          some-none e = cc

  run_built-IsRun :
      (prepared : Prepared Data) (c : Candidate Data) (cs : List (Candidate Data))
      (result : EnumerationResult Data)
      → run_built with_limit core seed time_limit deadline clock prepared (c ∷ cs) ≡ ok result
      → (limit : ℕ) × (positive_int time_limit "time_limit_s" ≡ ok limit)
        × IsRun limit (result.attempts, result.stopped_for_deadline) (c ∷ cs)
  unfolding run_from
  run_built-IsRun prepared c cs result h =
      let (calls, e, h₁) =
        >>=-eq-ok (run_from with_limit core seed time_limit deadline clock 0 (c ∷ cs)) _ h in
      let (limit, p, h₂) = >>=-eq-ok (positive_int time_limit "time_limit_s") _ e in
      let run = run_from-IsRun limit p (positive_int-pos time_limit _ limit p) 0 (c ∷ cs) calls e in
      (
        limit,
        p,
        subst (λ x. IsRun limit (x.attempts, x.stopped_for_deadline) (c ∷ cs)) (ok-injective h₁)
            run,
      )

  -- When some card was admitted, the attempts are calls of the first candidates in their order, each
  -- under a limit between a second and the scenario's; all are called, unless a deadline was given and
  -- fewer were, and then the result says that it stopped.
  pub run_candidates-IsRun :
      (show_g12 : Float → String) (input_data : Fields → Checked Data) (catalog : Result Fields)
      (scenario : Json) (result : EnumerationResult Data) (prepared : Prepared Data)
      (c : Candidate Data) (cs : List (Candidate Data))
      → prepare show_g12 input_data catalog time_limit scenario ≡ ok prepared
      → prepared.built ≡ c ∷ cs
      → run_candidates with_limit core seed time_limit deadline clock show_g12 input_data catalog
          scenario
        ≡ ok result
      → (limit : ℕ) × (positive_int time_limit "time_limit_s" ≡ ok limit)
        × IsRun limit (result.attempts, result.stopped_for_deadline) prepared.built
  unfolding run_candidates
  run_candidates-IsRun show_g12 input_data catalog scenario result prepared c cs p b h =
      rw b (run_built-IsRun prepared c cs result (rw (p, b) at h))
