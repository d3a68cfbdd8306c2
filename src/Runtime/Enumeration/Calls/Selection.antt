-- ===== src/Runtime/Enumeration/Calls/Selection.antt =====
-- Which attempt `select_winner` picks.
use planes.Base.{String, true, false, ◌≡◌, ◌⊎◌, none, some, List, ◌∷◌, ◌++◌, All}
use planes.Base.Result.{Result, ok}
use planes.Json.{Float, get}
use planes.Json.Numbers.{float_ltb, float_leb}
use planes.Runtime.Enumeration.{Attempt}
use planes.Runtime.Enumeration.Calls.{is_solved, mission_value, Best}

module _ (parse_float : String → Result Float) (name : String) {Data : Type 0} where
  -- The attempt was solved, and this is its value.
  pub record Counts (a : Attempt Data) (x : Float) : Type 0 where
    pub solved : is_solved (get "status" a.result) ≡ ok true
    pub value : mission_value parse_float name (get "mission" a.result) ≡ ok x

  abbrev pub Unsolved : Attempt Data → Type 0
  Unsolved a = is_solved (get "status" a.result) ≡ ok false

  -- The attempt was not solved, or its value is above `v`.
  abbrev pub Above : Float → Attempt Data → Type 0
  Above v a = Unsolved a ⊎ ((x : Float) × Counts a x × (float_leb x v ≡ false))

  -- The attempt was not solved, or its value is not below `v`.
  abbrev pub NotBelow : Float → Attempt Data → Type 0
  NotBelow v a = Unsolved a ⊎ ((x : Float) × Counts a x × (float_ltb x v ≡ false))

  -- The attempt stands in the list with its value, all values before it are above, and none behind it
  -- is below.
  pub record Wins (attempts : List (Attempt Data)) (w : Attempt Data) (v : Float) : Type 0 where
    pub earlier : List (Attempt Data)
    pub later : List (Attempt Data)
    pub split : attempts ≡ earlier ++ w ∷ later
    pub counts : Counts w v
    pub above : All (Above v) earlier
    pub below : All (NotBelow v) later

  -- What a result of the selection tells.
  abbrev pub Won : List (Attempt Data) → Best Data → Type 0
  Won attempts none = All Unsolved attempts
  Won attempts (some (w, v)) = Wins attempts w v
