-- ===== src/Backend/WindFilter/Largest.antt =====
-- `max(known)` and the verdict on the collected limits.
use planes.Base.{
  String, ◌≡◌, refl, sym, subst, inl, inr, true, false, none, some, List, [], ◌∷◌, arith, In,
  Bool-cases,
}
use planes.Json.{Float}
use planes.Json.Numbers.{isfinite, float_ltb, float_leb}
use planes.Backend.WindFilter.{largest, judge, WindRefusal}
use planes.Backend.WindFilter.Order.{leb-of_not-ltb, float_leb_trans}

abbrev pub Limit : Type 0
Limit = String × Float

abbrev pub AllFinite : List Limit → Type 0
AllFinite known = (p : Limit) → In p known → isfinite p.1 ≡ true

largest-less :
    (best x : Limit) (xs : List Limit)
    → float_ltb best.1 x.1 ≡ true
    → largest best (x ∷ xs) ≡ largest x xs
unfolding largest
largest-less best x xs h = rw (h, largest) refl

largest-keep :
    (best x : Limit) (xs : List Limit)
    → float_ltb best.1 x.1 ≡ false
    → largest best (x ∷ xs) ≡ largest best xs
unfolding largest
largest-keep best x xs h = rw (h, largest) refl

largest-In : (best : Limit) (xs : List Limit) → In (largest best xs) (best ∷ xs)
unfolding largest
largest-In best [] = inl refl
largest-In best (x ∷ xs) = elim (Bool-cases (float_ltb best.1 x.1)) [
  | inl less ↦
      subst (λ q. In q (best ∷ x ∷ xs)) (sym (largest-less best x xs less)) (inr (largest-In x xs))
  | inr not_less ↦
      subst (λ q. In q (best ∷ x ∷ xs)) (sym (largest-keep best x xs not_less))
        (keep (largest-In best xs))
]
  where
    keep : In (largest best xs) (best ∷ xs) → In (largest best xs) (best ∷ x ∷ xs)
    keep (inl e) = inl e
    keep (inr m) = inr (inr m)

float_leb_refl : (a : Float) → isfinite a ≡ true → float_leb a a ≡ true
unfolding float_leb
float_leb_refl a h = ground arith

leb-of_ltb : (a b : Float) → float_ltb a b ≡ true → float_leb a b ≡ true
unfolding float_ltb float_leb
leb-of_ltb a b h = ground arith

-- The running maximum is at least its start and every further limit.
largest-max :
    (best : Limit) (xs : List Limit)
    → AllFinite (best ∷ xs)
    → (p : Limit) → In p (best ∷ xs)
    → float_leb p.1 (largest best xs).1 ≡ true
unfolding largest
largest-max best [] fin p (inl e) = rw e (float_leb_refl best.1 (fin best (inl refl)))
largest-max best [] fin p (inr m) = elim m [ ]
largest-max best (x ∷ xs) fin p m = elim (Bool-cases (float_ltb best.1 x.1)) [
  | inl less ↦
      let later = largest-max x xs (λ q i. fin q (inr i)) in
      subst (λ (q : Limit). float_leb p.1 q.1 ≡ true) (sym (largest-less best x xs less))
        (elim m [
          | inl e ↦ rw e (
              float_leb_trans best.1 x.1 (largest x xs).1 (fin x (inr (inl refl)))
                (leb-of_ltb best.1 x.1 less) (later x (inl refl)))
          | inr m' ↦ later p m'
        ])
  | inr not_less ↦
      let later = largest-max best xs (λ q i. fin q (widen q i)) in
      let below =
        leb-of_not-ltb best.1 x.1 (fin best (inl refl)) (fin x (inr (inl refl))) not_less in
      subst (λ (q : Limit). float_leb p.1 q.1 ≡ true) (sym (largest-keep best x xs not_less))
        (elim m [
          | inl e ↦ later p (inl e)
          | inr m' ↦ elim m' [
            | inl e ↦ rw e (
                float_leb_trans x.1 best.1 (largest best xs).1 (fin best (inl refl)) below
                  (later best (inl refl)))
            | inr m'' ↦ later p (inr m'')
          ]
        ])
]
  where
    widen : (q : Limit) → In q (best ∷ xs) → In q (best ∷ x ∷ xs)
    widen q (inl e) = inl e
    widen q (inr i) = inr (inr i)

-- What a refusal on the collected limits says of them.
pub record Exceeds (wind : Float) (known : List Limit) (r : WindRefusal) : Type 0 where
  pub wind_lem : r.wind_mps ≡ wind
  pub member : In (r.limiting_model_id, r.fleet_max_wind_mps) known
  pub maximal : (p : Limit) → In p known → float_leb p.1 r.fleet_max_wind_mps ≡ true
  pub above : float_leb wind r.fleet_max_wind_mps ≡ false

pub judge-Exceeds :
    (wind : Float) (known : List Limit) (unknown : List String) (r : WindRefusal)
    → AllFinite known
    → judge wind known unknown ≡ some r
    → Exceeds wind known r
unfolding judge
judge-Exceeds wind [] unknown r fin h = cc
judge-Exceeds wind (x ∷ known) unknown r fin h =
    elim (Bool-cases (float_leb wind (largest x known).1)) [
      | inl calm ↦ cc (rw calm at h)
      | inr strong ↦
          subst (λ r'. Exceeds wind (x ∷ known) r') (some_inj (rw strong at h))
            (record {
              wind_lem = refl;
              member = largest-In x known;
              maximal = largest-max x known fin;
              above = strong;
            })
    ]
  where
    some_inj : {a b : WindRefusal} → some a ≡ some b → a ≡ b
    some_inj e = cc

-- Without a refusal, either no limit is known or one of them reaches the wind.
pub judge_calm :
    (wind : Float) (known : List Limit) (unknown : List String) (p : Limit)
    → judge wind known unknown ≡ none
    → In p known
    → (q : Limit) × In q known × (float_leb wind q.1 ≡ true)
unfolding judge
judge_calm wind [] unknown p h m = elim m [ ]
judge_calm wind (x ∷ known) unknown p h m = elim (Bool-cases (float_leb wind (largest x known).1)) [
  | inl calm ↦ (largest x known, largest-In x known, calm)
  | inr strong ↦ cc (rw strong at h)
]
