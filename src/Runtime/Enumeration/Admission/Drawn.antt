-- ===== src/Runtime/Enumeration/Admission/Drawn.antt =====
-- Which boards of a scenario become the calls of runtime/enumeration/outer.py.
use planes.Base.{
  String, eq_iff, ◌==◌, ◌≡◌, refl, subst, ◌⊎◌, inl, inr, Option, none, some, List, [], ◌∷◌, length,
  ap, suc, ℕ, contains, Bool-cases,
}
use planes.Base.Result.{ErrorKind, raise, ok, Gives, Gives-bind, Gives-skip, Gives-ok, require}
use planes.Json.{Float, Fields, get}
use planes.Runtime.Enumeration.{Aerodrome, Board, Candidate}
use planes.Runtime.Enumeration.Catalog.{Rows, Edges, missing_fields, spectra_of}
use planes.Runtime.Enumeration.Notes.{catalog_notes}
use planes.Runtime.Enumeration.Admission.{
  Card, CardVerdict, runnable, skipped, mismatched, Sorted, put, found_row, judge_fields,
  judge_card, admit, sort_boards,
}
use planes.Runtime.Enumeration.Admission.Cards.{
  Checked, aerodrome_named, card_payload, data_of, build_at, build,
}

-- The items of the second list were made of some of the first, in their order, each of its own.
abbrev pub Drawn : {A B : Type 0} → (A → B → Type 0) → List A → List B → Type 0
Drawn Of [] drawn = drawn ≡ []
Drawn {B = B} Of (x ∷ xs) drawn =
    Drawn Of xs drawn ⊎ ((y : B) × (rest : List B) × (drawn ≡ y ∷ rest) × Of x y × Drawn Of xs rest)

-- The call is one of the board: of its id, model, camera and aerodrome.
pub record IsOf {Data : Type 0} (b : Board) (c : Candidate Data) : Type 0 where
  pub board_id : c.board_id ≡ b.id
  pub model_id : c.model_id ≡ b.model_id
  pub camera_id : c.camera_id ≡ b.camera_id
  pub aerodrome_id : c.aerodrome_id ≡ b.aerodrome_id

abbrev pub Plays : Board → Card → Type 0
Plays b card = card.board ≡ b

abbrev Judged : Board → CardVerdict → Type 0
Judged b (runnable card said) = Plays b card
Judged b (skipped skip said) = Unit
Judged b (mismatched m said) = Unit

judge_fields-Judged :
    (b : Board) (model camera : Fields) (said lacks : List String)
    → Judged b (judge_fields b model camera said lacks)
judge_fields-Judged b model camera said [] = refl
judge_fields-Judged b model camera said (key ∷ keys) = tt

judge_card-Judged :
    (spectrum : String) (b : Board) (model camera : Fields) (said : List String)
    → Gives (Judged b) (judge_card spectrum b model camera said)
judge_card-Judged spectrum b model camera said =
    elim (Bool-cases (contains spectrum (spectra_of (get "spectra" camera)))) [
      | inl fits ↦ rw fits (
          Gives-skip (Judged b) (missing_fields model camera) _
            (λ lacks. Gives-ok (Judged b) _ (judge_fields-Judged b model camera said lacks)))
      | inr other ↦ rw other (Gives-ok (Judged b) _ tt)
    ]

module _ (show_g12 : Float → String) where
  admit-Judged :
      (spectrum : String) (models cameras : Rows) (edges : Edges) (b : Board)
      → Gives (Judged b) (admit show_g12 spectrum models cameras edges b)
  unfolding admit
  admit-Judged spectrum models cameras edges b =
      Gives-skip (Judged b) (found_row b.model_id models _) _ (λ model.
        Gives-skip (Judged b) (found_row b.camera_id cameras _) _ (λ camera.
          Gives-skip (Judged b) (require _ _ _) _ (λ _.
            Gives-skip (Judged b) (catalog_notes show_g12 b.id b.model_id b.camera_id model camera)
              _ (λ said. judge_card-Judged spectrum b model camera said))))

  put-Drawn :
      (b : Board) (boards : List Board) (v : CardVerdict) (s : Sorted)
      → Judged b v
      → Drawn Plays boards s.cards
      → Drawn Plays (b ∷ boards) (put v s).cards
  put-Drawn b boards (runnable card said) s own drawn = inr (card, s.cards, refl, own, drawn)
  put-Drawn b boards (skipped skip said) s own drawn = inl drawn
  put-Drawn b boards (mismatched m said) s own drawn = inl drawn

  pub sort_boards-Drawn :
      (spectrum : String) (models cameras : Rows) (edges : Edges) (boards : List Board)
      → Gives
          (λ s. Drawn Plays boards s.cards)
          (sort_boards show_g12 spectrum models cameras edges boards)
  unfolding sort_boards
  sort_boards-Drawn spectrum models cameras edges [] = Gives-ok _ _ refl
  sort_boards-Drawn spectrum models cameras edges (b ∷ boards) =
      Gives-bind _ (Judged b) (admit show_g12 spectrum models cameras edges b) _
        (admit-Judged spectrum models cameras edges b)
        (λ verdict own.
          Gives-bind _ (λ s. Drawn Plays boards s.cards)
            (sort_boards show_g12 spectrum models cameras edges boards) _
            (sort_boards-Drawn spectrum models cameras edges boards)
            (λ rest drawn. Gives-ok _ _ (put-Drawn b boards verdict rest own drawn)))

-- One call for each card, in their order.
abbrev pub Built : {Data : Type 0} → List Card → List (Candidate Data) → Type 0
Built [] [] = Unit
Built (card ∷ cards) (c ∷ calls) = IsOf card.board c × Built cards calls
Built [] (c ∷ calls) = ⊥
Built (card ∷ cards) [] = ⊥

pub length-Built :
    {Data : Type 0} (cards : List Card) (calls : List (Candidate Data))
    → Built cards calls
    → length calls ≡ length cards
length-Built [] [] built = refl
length-Built (card ∷ cards) (c ∷ calls) built = ap suc (length-Built cards calls built.1)
length-Built [] (c ∷ calls) built = absurd built
length-Built (card ∷ cards) [] built = absurd built

cons-Drawn :
    {Data : Type 0} (b : Board) (boards : List Board) (card : Card) (cards : List Card)
    (calls : List (Candidate Data))
    → Plays b card
    → ((made : List (Candidate Data)) → Built cards made → Drawn IsOf boards made)
    → Built (card ∷ cards) calls
    → Drawn IsOf (b ∷ boards) calls
cons-Drawn b boards card cards [] own more built = absurd built
cons-Drawn b boards card cards (c ∷ calls) own more built =
    inr (c, calls, refl, subst (λ x. IsOf x c) own built.0, more calls built.1)

pub Drawn-Built :
    {Data : Type 0} (boards : List Board) (cards : List Card) (calls : List (Candidate Data))
    → Drawn Plays boards cards
    → Built cards calls
    → Drawn IsOf boards calls
Drawn-Built [] [] [] drawn built = refl
Drawn-Built [] [] (c ∷ calls) drawn built = absurd built
Drawn-Built [] (card ∷ cards) calls drawn built = cc
Drawn-Built (b ∷ boards) cards calls (inl drawn) built =
    inl (Drawn-Built boards cards calls drawn built)
Drawn-Built (b ∷ boards) cards calls (inr (card, rest, e, own, drawn)) built =
    cons-Drawn b boards card rest calls own (λ made more. Drawn-Built boards rest made drawn more)
      (subst (λ xs. Built xs calls) e built)

aerodrome_named-id :
    (id : String) (all : List Aerodrome) (a : Aerodrome)
    → aerodrome_named id all ≡ some a
    → a.id ≡ id
aerodrome_named-id id [] a h = cc
aerodrome_named-id id (x ∷ all) a h = elim (Bool-cases (x.id == id)) [
  | inl same ↦ let e : x ≡ a = cc (rw same at h) in rw (← e) ((eq_iff x.id id).0 same)
  | inr other ↦ aerodrome_named-id id all a (rw other at h)
]

module _ (show_g12 : Float → String) {Data : Type 0} (input_data : Fields → Checked Data)
    (scenario : Fields) (limit : ℕ) where
  refused : {k : ErrorKind} {m : String} {A : Type 0} {c : A} {P : Type 0} → raise k m ≡ ok c → P
  refused h = cc

  build_at-IsOf :
      (card : Card) (o : Option Aerodrome)
      → ((a : Aerodrome) → o ≡ some a → a.id ≡ card.board.aerodrome_id)
      → Gives (IsOf card.board) (build_at show_g12 input_data scenario limit card o)
  build_at-IsOf card none named = λ c h. refused h
  build_at-IsOf card (some a) named =
      Gives-skip _ (card_payload scenario limit card a) _ (λ payload.
        Gives-skip _ (data_of show_g12 input_data (input_data payload)) _ (λ d.
          Gives-ok _ _ (record {
            board_id = refl;
            model_id = refl;
            camera_id = refl;
            aerodrome_id = named a refl;
          })))

  pub build-Built :
      (aerodromes : List Aerodrome) (cards : List Card)
      → Gives (Built cards) (build show_g12 input_data scenario limit aerodromes cards)
  unfolding build
  build-Built aerodromes [] = Gives-ok _ _ tt
  build-Built aerodromes (card ∷ cards) =
      Gives-bind _ (IsOf card.board)
        (build_at show_g12 input_data scenario limit card
          (aerodrome_named card.board.aerodrome_id aerodromes))
        _
        (build_at-IsOf card (aerodrome_named card.board.aerodrome_id aerodromes)
          (aerodrome_named-id card.board.aerodrome_id aerodromes))
        (λ c own.
          Gives-bind _ (Built cards) (build show_g12 input_data scenario limit aerodromes cards) _
            (build-Built aerodromes cards) (λ rest built. Gives-ok _ _ (own, built)))
