-- ===== src/Backend/WindFilter/Selection.antt =====
-- Which models the loop over the boards collects.
use planes.Base.{
  String, ◌==◌, eq_iff, eq_refl, ◌≡◌, refl, ◌∙◌, sym, ap, subst, inl, inr, true, false, Option,
  none, some, List, [], ◌∷◌, arith, In, contains, Bool-cases, Option-cases,
}
use planes.Base.Result.{Result, ok, ◌>>=◌, >>=-eq-ok, ok-injective}
use planes.Json.{Float, Number, Json, Fields, null, bool, num, str, arr, obj, end, field, get}
use planes.Json.Numbers.{isfinite, to_float}
use planes.Backend.WindFilter.{
  keep_positive, positive, limit_cell, last_row, rows_of, marked_positive_number, marked_value,
  model_limit, board_model, fresh, collect, Limits, add_limit,
}

keep_positive-isfinite : (x v : Float) → keep_positive x ≡ some v → isfinite v ≡ true
unfolding keep_positive
keep_positive-isfinite x v h = elim (Bool-cases (isfinite x)) [
  | inl f ↦ ground arith
  | inr f ↦ cc (rw f at h)
]

positive-isfinite : (n : Number) (v : Float) → positive n ≡ ok (some v) → isfinite v ≡ true
unfolding positive
positive-isfinite n v h =
    let (x, read, kept) = >>=-eq-ok (to_float n) _ h in keep_positive-isfinite x v (cc kept)

mutual
  unfolding marked_positive_number

  marked-isfinite :
      (j : Json) (v : Float) → marked_positive_number j ≡ ok (some v) → isfinite v ≡ true
  marked-isfinite (num n) v h = positive-isfinite n v h
  marked-isfinite (obj fs) v h = marked_value-isfinite fs v h
  marked-isfinite null v h = cc
  marked-isfinite (bool _) v h = cc
  marked-isfinite (str _) v h = cc
  marked-isfinite (arr _) v h = cc

  marked_value-isfinite :
      (fs : Fields) (v : Float) → marked_value fs ≡ ok (some v) → isfinite v ≡ true
  marked_value-isfinite end v h = cc
  marked_value-isfinite (field k j fs) v h = elim (Bool-cases (k == "value")) [
    | inl own ↦ marked-isfinite j v (rw own at h)
    | inr foreign ↦ marked_value-isfinite fs v (rw foreign at h)
  ]

pub model_limit-isfinite :
    (catalog : Fields) (id : String) (v : Float)
    → model_limit catalog id ≡ ok (some v)
    → isfinite v ≡ true
unfolding model_limit
model_limit-isfinite catalog id v h =
    marked-isfinite (limit_cell (last_row id (rows_of (get "uav_models" catalog)))) v h

-- Some board selects the model, and the catalog knows its limit.
pub record Offers (catalog : Fields) (boards : List Json) (id : String) (limit : Float)
    : Type 0 where
  pub board : Json
  pub selected : In board boards
  pub model : board_model board ≡ some id
  pub known : model_limit catalog id ≡ ok (some limit)

Offers-cons :
    (catalog : Fields) (b : Json) (boards : List Json) (id : String) (limit : Float)
    → Offers catalog boards id limit
    → Offers catalog (b ∷ boards) id limit
Offers-cons catalog b boards id limit o = record {
  board = o.board;
  selected = inr o.selected;
  model = o.model;
  known = o.known;
}

fresh-some :
    (o : Option String) (seen : List String) (id : String)
    → fresh o seen ≡ some id
    → (o ≡ some id) × (contains id seen ≡ false)
fresh-some none seen id h = cc
fresh-some (some k) seen id h = ground arith

module _ (catalog : Fields) where
  -- The loop after a board that names a model not seen before.
  abbrev collect_new : String → List Json → List String → Result Limits
  collect_new id boards seen = model_limit catalog id >>= λ limit.
      collect catalog boards (id ∷ seen) >>= λ rest. ok (add_limit id limit rest)

  collect-skip :
      (b : Json) (boards : List Json) (seen : List String)
      → fresh (board_model b) seen ≡ none
      → collect catalog (b ∷ boards) seen ≡ collect catalog boards seen
  unfolding collect
  collect-skip b boards seen e = rw (e, collect) refl

  collect-take :
      (b : Json) (boards : List Json) (seen : List String) (id : String)
      → fresh (board_model b) seen ≡ some id
      → collect catalog (b ∷ boards) seen ≡ collect_new id boards seen
  unfolding collect
  collect-take b boards seen id e = rw (e, collect) refl

  -- What a run of `collect_new` that does not raise consists of.
  record Taken (id : String) (boards : List Json) (seen : List String) (l : Limits) : Type 0 where
    limit : Option Float
    rest : Limits
    read : model_limit catalog id ≡ ok limit
    later : collect catalog boards (id ∷ seen) ≡ ok rest
    total : l ≡ add_limit id limit rest

  collect_new-Taken :
      (id : String) (boards : List Json) (seen : List String) (l : Limits)
      → collect_new id boards seen ≡ ok l
      → Taken id boards seen l
  collect_new-Taken id boards seen l h =
      let (limit, read, h₁) = >>=-eq-ok (model_limit catalog id) _ h in
      let (rest, later, h₂) = >>=-eq-ok (collect catalog boards (id ∷ seen)) _ h₁ in
      record { limit = limit; rest = rest; read = read; later = later; total = cc (sym h₂) }

  -- The model is new to the loop: no earlier board names it.
  abbrev IsNew : String → List String → Type 0
  IsNew id seen = contains id seen ≡ false

  module _ (b : Json) (boards : List Json) (k : String) (named : board_model b ≡ some k) where
    sound_step :
        (id : String) (x : Float) (limit : Option Float) (rest : Limits)
        → model_limit catalog k ≡ ok limit
        → (In (id, x) rest.known → Offers catalog boards id x)
        → In (id, x) (add_limit k limit rest).known
        → Offers catalog (b ∷ boards) id x
    sound_step id x none rest read later m = Offers-cons catalog b boards id x (later m)
    sound_step id x (some y) rest read later (inr m) = Offers-cons catalog b boards id x (later m)
    sound_step id x (some y) rest read later (inl e) =
        let same_id : id ≡ k = ap (λ (p : String × Float). p.0) e in
        let same_limit : x ≡ y = ap (λ (p : String × Float). p.1) e in
        record {
          board = b;
          selected = inl refl;
          model = named ∙ ap some (sym same_id);
          known = cc (read, same_id, same_limit);
        }

  pub collect_sound :
      (boards : List Json) (seen : List String) (l : Limits) (id : String) (x : Float)
      → collect catalog boards seen ≡ ok l
      → In (id, x) l.known
      → Offers catalog boards id x
  unfolding collect
  collect_sound [] seen l id x h m =
      absurd (subst (λ (t : Limits). In (id, x) t.known) (sym (ok-injective h)) m)
  collect_sound (b ∷ boards) seen l id x h m = elim (Option-cases (fresh (board_model b) seen)) [
    | inl e ↦
        Offers-cons catalog b boards id x
          (collect_sound boards seen l id x (sym (collect-skip b boards seen e) ∙ h) m)
    | inr (k, e) ↦
        let t = collect_new-Taken k boards seen l (sym (collect-take b boards seen k e) ∙ h) in
        sound_step b boards k (fresh-some (board_model b) seen k e).0 id x t.limit t.rest t.read
          (collect_sound boards (k ∷ seen) t.rest id x t.later)
          (subst (λ (u : Limits). In (id, x) u.known) t.total m)
  ]

  complete_first :
      (k : String) (x : Float) (limit : Option Float) (rest : Limits)
      → model_limit catalog k ≡ ok limit
      → model_limit catalog k ≡ ok (some x)
      → In (k, x) (add_limit k limit rest).known
  complete_first k x none rest read known = cc
  complete_first k x (some y) rest read known =
      let same_limit : x ≡ y = cc in inl (ap (λ z. (k, z)) same_limit)

  complete_later :
      (k id : String) (x : Float) (limit : Option Float) (rest : Limits)
      → In (id, x) rest.known
      → In (id, x) (add_limit k limit rest).known
  complete_later k id x none rest m = m
  complete_later k id x (some y) rest m = inr m

  -- A model that some board names is passed over only if it was seen before.
  skipped_absurd :
      (b : Json) (seen : List String) (id : String)
      → fresh (board_model b) seen ≡ none
      → board_model b ≡ some id
      → IsNew id seen
      → ⊥
  skipped_absurd b seen id e named new_id = cc (rw (named, new_id) at e)

  pub collect_complete :
      (boards : List Json) (seen : List String) (l : Limits) (board : Json) (id : String)
      (x : Float)
      → collect catalog boards seen ≡ ok l
      → In board boards
      → board_model board ≡ some id
      → model_limit catalog id ≡ ok (some x)
      → IsNew id seen
      → In (id, x) l.known
  unfolding collect
  collect_complete [] seen l board id x h m named known new_id = elim m [ ]
  collect_complete (b ∷ boards) seen l board id x h m named known new_id =
      elim (Option-cases (fresh (board_model b) seen)) [
        | inl e ↦
            let rest_run = sym (collect-skip b boards seen e) ∙ h in
            elim m [
              | inl own ↦ absurd (skipped_absurd b seen id e (rw (← own) named) new_id)
              | inr m' ↦ collect_complete boards seen l board id x rest_run m' named known new_id
            ]
        | inr (k, e) ↦
            let t = collect_new-Taken k boards seen l (sym (collect-take b boards seen k e) ∙ h) in
            let taken = (fresh-some (board_model b) seen k e).0 in
            subst (λ (u : Limits). In (id, x) u.known) (sym t.total)
              (elim (Bool-cases (id == k)) [
                | inl own ↦
                    let same_id : id ≡ k = (eq_iff id k).0 own in
                    rw same_id (complete_first k x t.limit t.rest t.read (rw same_id at known))
                | inr foreign ↦ elim m [
                  | inl here ↦
                      let same_id : id ≡ k = cc (named, taken, here) in
                      cc (rw (same_id, eq_refl) at foreign)
                  | inr m' ↦ complete_later k id x t.limit t.rest (
                      collect_complete boards (k ∷ seen) t.rest board id x t.later m' named known
                        (rw (foreign, new_id) refl))
                ]
              ])
      ]
