-- ===== src/Runtime/Enumeration/Admission/Account.antt =====
-- Every board card of a scenario is accounted for once: called, skipped or mismatched.
use planes.Base.{
  ℕ, suc, ◌+◌, ◌≤◌, String, true, false, ◌≡◌, refl, ap, ◌∙◌, inl, inr, not, All, contains, not-true,
  List, [], ◌∷◌, ltb, length, Bool-cases, arith,
}
use planes.Base.Result.{
  Result, ok, Gives, Gives-bind, Gives-skip, Gives-ok, require, require-Gives, raise, ErrorKind,
  value_error,
}
use planes.Json.{Float, Json, Items, Fields, null, bool, num, str, arr, obj, get, elements}
use planes.Runtime.Enumeration.{
  checked_row, checked_name, at_index, key_at, max_calls, Aerodrome, Board, positive_int,
}
use planes.Runtime.Enumeration.Scenario.{
  aerodromes_of, checked_count, read_boards, boards_of, ids_of,
}
use planes.Runtime.Enumeration.Catalog.{Rows, Edges, index_rows, compatibility_of}
use planes.Runtime.Enumeration.Admission.{
  Card, CardVerdict, runnable, skipped, mismatched, Sorted, put, admit, sort_boards,
}
use planes.Runtime.Enumeration.Admission.Drawn.{
  Drawn, IsOf, Plays, Built, length-Built, Drawn-Built, sort_boards-Drawn, build-Built,
}
use planes.Runtime.Enumeration.Admission.Cards.{
  Checked, Prepared, build, build_sorted, prepare, checked_spectrum,
}

pub total : Sorted → ℕ
total s = length s.cards + length s.skips + length s.mismatches

total-put : (v : CardVerdict) (s : Sorted) → total (put v s) ≡ suc (total s)
unfolding total
total-put (runnable card said) s = omega arith
total-put (skipped skip said) s = omega arith
total-put (mismatched m said) s = omega arith

module _ (show_g12 : Float → String) where
  sort_boards-total :
      (spectrum : String) (models cameras : Rows) (edges : Edges) (boards : List Board)
      → Gives
          (λ s. total s ≡ length boards)
          (sort_boards show_g12 spectrum models cameras edges boards)
  unfolding sort_boards total
  sort_boards-total spectrum models cameras edges [] = Gives-ok _ _ refl
  sort_boards-total spectrum models cameras edges (board ∷ boards) =
      Gives-skip _ (admit show_g12 spectrum models cameras edges board) _ (λ verdict.
        Gives-bind _ _ (sort_boards show_g12 spectrum models cameras edges boards) _
          (sort_boards-total spectrum models cameras edges boards)
          (λ rest e. Gives-ok _ _ (total-put verdict rest ∙ ap suc e)))

-- The ids of the boards are new, and differ from each other.
abbrev pub FreshIds : List String → List Board → Type 0
FreshIds seen [] = Unit
FreshIds seen (b ∷ boards) = (contains b.id seen ≡ false) × FreshIds (b.id ∷ seen) boards

-- What the checks of the boards let through.
pub record IsFleet (known seen : List String) (items : List Json) (boards : List Board)
    : Type 0 where
  pub count : length boards ≡ length items
  pub based : All (λ b. contains b.aerodrome_id known ≡ true) boards
  pub fresh : FreshIds seen boards

read_boards-IsFleet :
    (known : List String) (index : ℕ) (seen : List String) (items : List Json)
    → Gives (IsFleet known seen items) (read_boards known index seen items)
unfolding read_boards
read_boards-IsFleet known index seen [] =
    Gives-ok _ _ (record { count = refl; based = tt; fresh = tt })
read_boards-IsFleet known index seen (item ∷ items) =
    Gives-skip _ (checked_row item (at_index "boards" index)) _ (λ row.
      Gives-skip _ (checked_name (get "id" row) (key_at "boards" index "id")) _ (λ id.
        Gives-bind _ _ (require (not (contains id seen)) value_error _) _
          (require-Gives (not (contains id seen)) value_error _)
          (λ _ fresh.
            Gives-skip _ (checked_name (get "model_id" row) (key_at "boards" index "model_id")) _
              (λ m.
                Gives-skip _
                  (checked_name (get "camera_id" row) (key_at "boards" index "camera_id")) _
                  (λ c.
                    Gives-skip _
                      (checked_name (get "aerodrome_id" row) (key_at "boards" index "aerodrome_id"))
                      _
                      (λ a.
                        Gives-bind _ _ (require (contains a known) value_error _) _
                          (require-Gives (contains a known) value_error _)
                          (λ _ based.
                            Gives-skip _
                              (checked_count (get "count" row) (key_at "boards" index "count")) _
                              (λ n.
                                Gives-bind _ _ (read_boards known (suc index) (id ∷ seen) items) _
                                  (read_boards-IsFleet known (suc index) (id ∷ seen) items)
                                  (λ rest fleet. Gives-ok _ _ (record {
                                    count = ap suc fleet.count;
                                    based = (based, fleet.based);
                                    fresh = (not-true (contains id seen) fresh, fleet.fresh);
                                  }))))))))))

-- The boards read from the scenario, of which every card is accounted for, with at most 16 calls.
pub record IsAccounted {Data : Type 0} (scenario : Fields) (p : Prepared Data) : Type 0 where
  pub items : Items
  pub cards : get "boards" scenario ≡ arr items
  pub aerodromes : List Aerodrome
  pub named : aerodromes_of (get "aerodromes" scenario) ≡ ok aerodromes
  pub boards : List Board
  pub read : boards_of (get "boards" scenario) aerodromes ≡ ok boards
  pub fleet : IsFleet (ids_of aerodromes) [] (elements items) boards
  pub called : Drawn IsOf boards p.built
  pub accounted : length p.built + length p.skips + length p.mismatches ≡ length (elements items)
  pub bounded : length p.built ≤ max_calls

module _ (show_g12 : Float → String) {Data : Type 0} (input_data : Fields → Checked Data) where
  -- The lists of the cards that did not become calls are those of the loop.
  record Kept (sorted : Sorted) (p : Prepared Data) : Type 0 where
    built : Built sorted.cards p.built
    skips : p.skips ≡ sorted.skips
    mismatches : p.mismatches ≡ sorted.mismatches
    bounded : length p.built ≤ max_calls

  build_sorted-Kept :
      (scenario : Fields) (time_limit : Json) (aerodromes : List Aerodrome) (sorted : Sorted)
      (cards : List Card)
      → sorted.cards ≡ cards
      → Gives
          (Kept sorted)
          (build_sorted show_g12 input_data scenario time_limit aerodromes sorted cards)
  build_sorted-Kept scenario time_limit aerodromes sorted [] e =
      Gives-ok _ _
        (record { built = rw e tt; skips = refl; mismatches = refl; bounded = omega arith })
  build_sorted-Kept scenario time_limit aerodromes sorted (card ∷ cards) e =
      elim (Bool-cases (ltb max_calls (length (card ∷ cards)))) [
        | inl many ↦ rw many (λ p h. absurd (failed h))
        | inr few ↦ rw few (
            Gives-skip _ (positive_int time_limit "time_limit_s") _ (λ limit.
              Gives-bind _ _ (build show_g12 input_data scenario limit aerodromes (card ∷ cards)) _
                (build-Built show_g12 input_data scenario limit aerodromes (card ∷ cards))
                (λ built calls. Gives-ok _ _ (record {
                  built = rw e calls;
                  skips = refl;
                  mismatches = refl;
                  bounded =
                      rw (length-Built (card ∷ cards) built calls)
                        (within (length (card ∷ cards)) few);
                }))))
      ]
    where
      failed : {k : ErrorKind} {m : String} {p : Prepared Data} → raise k m ≡ ok p → ⊥
      failed h = cc

      within : (n : ℕ) → ltb max_calls n ≡ false → n ≤ max_calls
      within n h = ground arith

  account :
      (scenario : Fields) (items : Items) (aerodromes : List Aerodrome) (boards : List Board)
      (sorted : Sorted) (p : Prepared Data)
      → get "boards" scenario ≡ arr items
      → aerodromes_of (get "aerodromes" scenario) ≡ ok aerodromes
      → boards_of (get "boards" scenario) aerodromes ≡ ok boards
      → IsFleet (ids_of aerodromes) [] (elements items) boards
      → (total sorted ≡ length boards) × Drawn Plays boards sorted.cards
      → Kept sorted p
      → IsAccounted scenario p
  unfolding total
  account scenario items aerodromes boards sorted p e named read fleet sum kept = record {
    items = items;
    cards = e;
    aerodromes = aerodromes;
    named = named;
    boards = boards;
    read = read;
    fleet = fleet;
    called = Drawn-Built boards sorted.cards p.built sum.1 kept.built;
    accounted =
        rw (length-Built sorted.cards p.built kept.built, kept.skips, kept.mismatches)
          (sum.0 ∙ fleet.count);
    bounded = kept.bounded;
  }

  boards_of-list :
      (j : Json) (aerodromes : List Aerodrome)
      → Gives
          (λ boards.
            (items : Items) × (j ≡ arr items)
            × IsFleet (ids_of aerodromes) [] (elements items) boards
            × (boards_of j aerodromes ≡ ok boards))
          (boards_of j aerodromes)
  unfolding boards_of
  boards_of-list (arr items) aerodromes boards h =
      (items, refl, read_boards-IsFleet (ids_of aerodromes) 0 [] (elements items) boards h, h)
  boards_of-list null aerodromes boards h = cc
  boards_of-list (bool b) aerodromes boards h = cc
  boards_of-list (num n) aerodromes boards h = cc
  boards_of-list (str s) aerodromes boards h = cc
  boards_of-list (obj fs) aerodromes boards h = cc

  -- Of a scenario that is prepared, the calls, skips and mismatches are together as many as the board
  -- cards, and the calls are at most 16. The boards that were read from the cards are as many, have
  -- different ids, and stand on aerodromes of the scenario. The calls are those of some of these boards,
  -- in their order, each with its board's id, model, camera and aerodrome.
  pub prepare-IsAccounted :
      (catalog : Result Fields) (time_limit : Json) (scenario : Fields) (p : Prepared Data)
      → prepare show_g12 input_data catalog time_limit (obj scenario) ≡ ok p
      → IsAccounted scenario p
  unfolding prepare
  prepare-IsAccounted catalog time_limit scenario =
      Gives-skip _ (checked_spectrum scenario) _ (λ spectrum.
        Gives-bind _ _ (aerodromes_of (get "aerodromes" scenario)) _ (λ v e. e)
          (λ aerodromes named.
            Gives-bind _ _ (boards_of (get "boards" scenario) aerodromes) _
              (boards_of-list (get "boards" scenario) aerodromes)
              (λ boards listed. Gives-skip _ catalog _ (λ table.
                Gives-skip _ (index_rows (get "uav_models" table) "uav_models") _ (λ models.
                  Gives-skip _ (index_rows (get "cameras" table) "cameras") _ (λ cameras.
                    Gives-skip _ (compatibility_of (get "compatibility" table) models cameras) _
                      (λ edges.
                        Gives-bind _ _ (sort_boards show_g12 spectrum models cameras edges boards) _
                          (λ s h. (
                            sort_boards-total show_g12 spectrum models cameras edges boards s h,
                            sort_boards-Drawn show_g12 spectrum models cameras edges boards s h,
                          ))
                          (λ sorted sum p h.
                            account scenario listed.0 aerodromes boards sorted p listed.1 named
                              listed.3 listed.2 sum
                              (build_sorted-Kept scenario time_limit aerodromes sorted sorted.cards
                                refl p h)))))))))
