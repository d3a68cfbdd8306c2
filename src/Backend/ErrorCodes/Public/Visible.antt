-- ===== src/Backend/ErrorCodes/Public/Visible.antt =====
-- Which limitations `public_limitations` of backend/error_codes.py keeps.
use planes.Base.{
  ℕ, String, ◌==◌, eq_iff, eq_refl, ◌≡◌, ◌≢◌, refl, sym, ◌∙◌, inl, inr, Bool, true, false, ◌||◌,
  List, [], ◌∷◌, contains, In, Bool-cases,
}
use planes.Base.Text.{strip}
use planes.Runtime.Contract.Limitations.{Distinct, unique_limitations_lem}
use planes.Backend.ErrorCodes.Public.{is_internal_limitation, shown, public_limitations}

not_empty : (s : String) → s ≢ "" → (s == "") ≡ false
not_empty s h = elim (Bool-cases (s == "")) [ inl e ↦ absurd (h ((eq_iff s "").0 e)) | inr e ↦ e ]

or_true : (b : Bool) → (b || true) ≡ true
or_true true = refl
or_true false = refl

module _ (is_alnum : ℕ → Bool) where
  -- The text may be shown: it is not empty and not internal.
  abbrev pub MayShow : String → Type 0
  MayShow k = (k ≢ "") × (is_internal_limitation is_alnum k ≡ false)

  -- The shown texts are distinct, and are exactly the given ones, stripped, that may be shown.
  pub record ShowsPublic (given shown_texts : List String) : Type 0 where
    pub distinct : Distinct shown_texts
    pub allowed :
        (k : String)
        → contains k shown_texts ≡ true
        → (item : String) × In item given × (strip item ≡ k) × MayShow k
    pub complete :
        (item : String)
        → In item given
        → MayShow (strip item)
        → contains (strip item) shown_texts ≡ true

  shown_allowed :
      (k : String) (items : List String)
      → contains k (shown is_alnum items) ≡ true
      → (item : String) × In item items × (strip item ≡ k) × MayShow k
  unfolding shown
  shown_allowed k [] h = cc
  shown_allowed k (x ∷ items) h = elim (Bool-cases (strip x == "")) [
    | inl blank ↦ later (shown_allowed k items (rw blank at h))
    | inr given ↦ elim (Bool-cases (is_internal_limitation is_alnum (strip x))) [
      | inl internal ↦ later (shown_allowed k items (rw (given, internal) at h))
      | inr public ↦ elim (Bool-cases (k == strip x)) [
        | inl same ↦
            let e : k ≡ strip x = (eq_iff k (strip x)).0 same in
            rw e (x, inl refl, refl, (nonempty given, public))
        | inr other ↦ later (shown_allowed k items (rw (given, public, other) at h))
      ]
    ]
  ]
    where
      later :
          ((item : String) × In item items × (strip item ≡ k) × MayShow k)
          → (item : String) × In item (x ∷ items) × (strip item ≡ k) × MayShow k
      later (item, m, e, p) = (item, inr m, e, p)

      nonempty : (strip x == "") ≡ false → strip x ≢ ""
      nonempty given e = cc (rw ((eq_iff (strip x) "").1 e) at given)

  shown_complete :
      (item : String) (items : List String)
      → In item items
      → MayShow (strip item)
      → contains (strip item) (shown is_alnum items) ≡ true
  unfolding shown
  shown_complete item [] m p = elim m [ ]
  shown_complete item (x ∷ items) (inl e) p =
      rw (← e, not_empty (strip item) p.0, p.1, eq_refl (strip item)) refl
  shown_complete item (x ∷ items) (inr m) p = elim (Bool-cases (strip x == "")) [
    | inl blank ↦ rw blank (shown_complete item items m p)
    | inr given ↦ elim (Bool-cases (is_internal_limitation is_alnum (strip x))) [
      | inl internal ↦ rw (given, internal) (shown_complete item items m p)
      | inr public ↦
          rw (given, public, shown_complete item items m p) (or_true (strip item == strip x))
    ]
  ]

  pub public_limitations-ShowsPublic :
      (items : List String) → ShowsPublic items (public_limitations is_alnum items)
  unfolding public_limitations
  public_limitations-ShowsPublic items =
      let (same, distinct, members) = unique_limitations_lem (shown is_alnum items) in
      record {
        distinct = distinct;
        allowed = λ k h. shown_allowed k items (sym (members k) ∙ h);
        complete = λ item m p. members (strip item) ∙ shown_complete item items m p;
      }
