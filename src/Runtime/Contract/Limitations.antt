-- ===== src/Runtime/Contract/Limitations.antt =====
-- `unique_limitations` of runtime/types.py, and what it keeps.
use planes.Base.{
  not, ◌∙◌, if◌then◌else◌, String, eq_iff, eq_refl, ◌==◌, ◌≡◌, refl, inl, inr, Bool, true, false,
  List, [], ◌∷◌, contains, Bool-cases,
}

-- The loop: `seen` holds what was kept so far.
unfoldable unique_from : List String → List String → List String
unique_from seen [] = []
unique_from seen (item ∷ items) = elim (contains item seen) [
  | true ↦ unique_from seen items
  | false ↦ item ∷ unique_from (item ∷ seen) items
]

unfoldable pub unique_limitations : List String → List String
unfolding unique_from
unique_limitations items = unique_from [] items

-- No text stands twice.
abbrev pub Distinct : List String → Type 0
Distinct [] = Unit
Distinct (x ∷ xs) = (contains x xs ≡ false) × Distinct xs

abbrev filter : (String → Bool) → List String → List String
filter p [] = []
filter p (x ∷ xs) = let rest = filter p xs in if p x then x ∷ rest else rest

-- The first copy of each text, in order: each head drops its later copies.
abbrev pub first_copies : List String → List String
first_copies [] = []
first_copies (x ∷ xs) = x ∷ filter (λ y. not (y == x)) (first_copies xs)

unique_from_skip :
    (seen : List String) (x : String) (xs : List String)
    → contains x seen ≡ true
    → unique_from seen (x ∷ xs) ≡ unique_from seen xs
unfolding unique_from
unique_from_skip seen x xs h = rw (unique_from, h) refl

unique_from_keep :
    (seen : List String) (x : String) (xs : List String)
    → contains x seen ≡ false
    → unique_from seen (x ∷ xs) ≡ x ∷ unique_from (x ∷ seen) xs
unfolding unique_from
unique_from_keep seen x xs h = rw (unique_from, h) refl

-- A text that was seen is not kept again.
unique_from-seen :
    (k : String) (seen xs : List String)
    → contains k seen ≡ true
    → contains k (unique_from seen xs) ≡ false
unfolding unique_from
unique_from-seen k seen [] h = refl
unique_from-seen k seen (x ∷ xs) h = elim (Bool-cases (contains x seen)) [
  | inl old ↦ rw (unique_from_skip seen x xs old, unique_from-seen k seen xs h) refl
  | inr new ↦
      rw
        (
          unique_from_keep seen x xs new,
          different new,
          unique_from-seen k (x ∷ seen) xs (rw (h, different new) refl),
        )
        refl
]
  where
    different : contains x seen ≡ false → (k == x) ≡ false
    different new = elim (Bool-cases (k == x)) [
      | inl e ↦ let p : k ≡ x = (eq_iff k x).0 e in cc (rw p at h)
      | inr e ↦ e
    ]

-- A text that was not seen is kept exactly if it is there.
unique_from-unseen :
    (k : String) (seen xs : List String)
    → contains k seen ≡ false
    → contains k (unique_from seen xs) ≡ contains k xs
unfolding unique_from
unique_from-unseen k seen [] h = refl
unique_from-unseen k seen (x ∷ xs) h = elim (Bool-cases (k == x)) [
  | inl e ↦
      let p : k ≡ x = (eq_iff k x).0 e in
      let q : contains x seen ≡ false = rw p at h in rw (unique_from_keep seen x xs q, e) refl
  | inr e ↦ elim (Bool-cases (contains x seen)) [
    | inl old ↦ rw (unique_from_skip seen x xs old, e, unique_from-unseen k seen xs h) refl
    | inr new ↦
        rw (unique_from_keep seen x xs new, e, unique_from-unseen k (x ∷ seen) xs (rw (e, h) refl))
          refl
  ]
]

unique_from-Distinct : (seen xs : List String) → Distinct (unique_from seen xs)
unfolding unique_from
unique_from-Distinct seen [] = tt
unique_from-Distinct seen (x ∷ xs) = elim (Bool-cases (contains x seen)) [
  | inl old ↦ rw (unique_from_skip seen x xs old) (unique_from-Distinct seen xs)
  | inr new ↦
      rw (unique_from_keep seen x xs new)
        (unique_from-seen x (x ∷ seen) xs (rw (eq_refl x) refl), unique_from-Distinct (x ∷ seen) xs)
]

filter_seen :
    (x : String) (seen ys : List String)
    → contains x seen ≡ true
    → filter (λ y. not (contains y seen)) (filter (λ y. not (y == x)) ys)
      ≡ filter (λ y. not (contains y seen)) ys
filter_seen x seen [] h = refl
filter_seen x seen (y ∷ ys) h = elim (Bool-cases (y == x)) [
  | inl e ↦
      let p : y ≡ x = (eq_iff y x).0 e in
      let q : contains y seen ≡ true = rw p h in rw (e, q, filter_seen x seen ys h) refl
  | inr e ↦ rw (e, filter_seen x seen ys h) refl
]

filter_new :
    (x : String) (seen ys : List String)
    → filter (λ y. not (contains y seen)) (filter (λ y. not (y == x)) ys)
      ≡ filter (λ y. not (contains y (x ∷ seen))) ys
filter_new x seen [] = refl
filter_new x seen (y ∷ ys) = elim (Bool-cases (y == x)) [
  | inl e ↦ rw (e, filter_new x seen ys) refl
  | inr e ↦ rw (e, filter_new x seen ys) refl
]

unique_from-first_copies :
    (seen xs : List String)
    → unique_from seen xs ≡ filter (λ y. not (contains y seen)) (first_copies xs)
unfolding unique_from
unique_from-first_copies seen [] = refl
unique_from-first_copies seen (x ∷ xs) = elim (Bool-cases (contains x seen)) [
  | inl old ↦
      rw
        (
          unique_from_skip seen x xs old,
          unique_from-first_copies seen xs,
          filter_seen x seen (first_copies xs) old,
          old,
        )
        refl
  | inr new ↦
      rw
        (
          unique_from_keep seen x xs new,
          unique_from-first_copies (x ∷ seen) xs,
          filter_new x seen (first_copies xs),
          new,
        )
        refl
]

filter_all : (xs : List String) → filter (λ y. true) xs ≡ xs
filter_all [] = refl
filter_all (x ∷ xs) = rw (filter_all xs) refl

-- `unique_limitations` keeps the first copy of each text in order; so no text stands twice, and the
-- same texts stand in the result as in the argument.
pub unique_limitations_lem :
    (items : List String)
    → (unique_limitations items ≡ first_copies items)
      × Distinct (unique_limitations items)
      × ((k : String) → contains k (unique_limitations items) ≡ contains k items)
unfolding unique_limitations
unique_limitations_lem items = (
  unique_from-first_copies [] items ∙ filter_all (first_copies items),
  unique_from-Distinct [] items,
  λ k. unique_from-unseen k [] items refl,
)

unique_from_fixed :
    (seen xs : List String)
    → Distinct xs
    → ((k : String) → contains k seen ≡ true → contains k xs ≡ false)
    → unique_from seen xs ≡ xs
unfolding unique_from
unique_from_fixed seen [] d apart = refl
unique_from_fixed seen (x ∷ xs) d apart = elim (Bool-cases (contains x seen)) [
  | inl old ↦ cc (rw (eq_refl x) at (apart x old))
  | inr new ↦ rw (unique_from_keep seen x xs new, unique_from_fixed (x ∷ seen) xs d.1 still) refl
]
  where
    still : (k : String) → contains k (x ∷ seen) ≡ true → contains k xs ≡ false
    still k h = elim (Bool-cases (k == x)) [
      | inl e ↦ rw ((eq_iff k x).0 e) d.0
      | inr e ↦ rw e at (apart k (rw e at h))
    ]

-- A list without repetitions stays as it is.
pub unique_limitations_fixed :
    (items : List String) → Distinct items → unique_limitations items ≡ items
unfolding unique_limitations
unique_limitations_fixed items d = unique_from_fixed [] items d (λ k h. cc)

pub unique_limitations-Distinct : (items : List String) → Distinct (unique_limitations items)
unfolding unique_limitations
unique_limitations-Distinct items = unique_from-Distinct [] items
