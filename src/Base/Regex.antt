-- ===== src/Base/Regex.antt =====
-- Regular expressions as Python's `re` runs them on texts: greedy, with backtracking, leftmost first,
-- here always with IGNORECASE. A capture is the text that its group matched. Which characters count as
-- letters and digits for `\b` (Unicode's database) is an argument.
use Prim.Native.Nat.{ℕ, zero, suc, ◌+◌, ◌-◌}
use Prim.Native.Char.{code}
use Prim.Native.String.{String, [], ◌∷◌}
use mathlib.Core.Bool.{Bool, true, false, not, ◌&&◌, ◌||◌}
use mathlib.Core.Option.{Option, none, some}
use mathlib.Core.List.{List}
use planes.Base.Tests.{leb, eqb, if◌then◌else◌}

-- A group is told by the order in which groups match: no pattern here nests or repeats one.
pub data Regex : Type 0 where
  empty text_start text_end word_edge : Regex
  one many : (ℕ → Bool) → Regex
  seq alt : Regex → Regex → Regex
  group : Regex → Regex

-- Where the matching stands: the character before, the rest, and the captures, the latest first.
pub record Place : Type 0 where
  pub previous : Option ℕ
  pub rest : String
  pub captures : List String

-- The case folding of IGNORECASE, as far as a letter of ASCII is its value: the dotted and the dotless
-- i, the long s and the Kelvin sign.
abbrev pub fold_case : ℕ → ℕ
fold_case c =
    if leb 65 c && leb c 90
    then c + 32
    else if eqb c 0x130 || eqb c 0x131
    then 105
    else if eqb c 0x17f
    then 115
    else if eqb c 0x212a
    then 107
    else c

abbrev pub letter : ℕ → ℕ → Bool
letter x c = eqb (fold_case c) x

-- A literal text.
abbrev pub literal : String → Regex
literal [] = empty
literal (c ∷ s) = seq (one (letter (code c))) (literal s)

abbrev pub plus : (ℕ → Bool) → Regex
plus c = seq (one c) (many c)

abbrev pub optional : Regex → Regex
optional r = alt r empty

abbrev pub text_length : String → ℕ
text_length [] = 0
text_length (c ∷ s) = suc (text_length s)

abbrev pub text_take : ℕ → String → String
text_take zero s = []
text_take (suc n) [] = []
text_take (suc n) (c ∷ s) = c ∷ text_take n s

-- The text between two places.
abbrev pub consumed : String → String → String
consumed from to = text_take (text_length from - text_length to) from

-- The first alternative that matches.
abbrev pub first_of {ℓ} : {A : Type ℓ} → Option A → Option A → Option A
first_of (some a) other = some a
first_of none other = other

-- The end of the text, or before its last line break.
abbrev pub at_end : String → Bool
at_end [] = true
at_end (c ∷ []) = eqb (code c) 10
at_end (c ∷ d ∷ s) = false

abbrev pub is_none : Option ℕ → Bool
is_none none = true
is_none (some _) = false

module _ (is_alnum : ℕ → Bool) where
  abbrev pub is_word : ℕ → Bool
  is_word c = is_alnum c || eqb c 95

  abbrev pub word_before : Option ℕ → Bool
  word_before none = false
  word_before (some c) = is_word c

  abbrev pub word_after : String → Bool
  word_after [] = false
  word_after (c ∷ s) = is_word (code c)

  abbrev differ : Bool → Bool → Bool
  differ true b = not b
  differ false b = b

  -- The longest run first.
  unfoldable pub match_many :
      (ℕ → Bool)
      → (Place → Option (List String))
      → List String
      → Option ℕ
      → String
      → Option (List String)
  match_many c next captures previous [] =
      next (record { previous = previous; rest = []; captures = captures })
  match_many c next captures previous (x ∷ s) = elim (c (code x)) [
    | true ↦
        first_of (match_many c next captures (some (code x)) s)
          (next (record { previous = previous; rest = x ∷ s; captures = captures }))
    | false ↦ next (record { previous = previous; rest = x ∷ s; captures = captures })
  ]

  abbrev match_one :
      (ℕ → Bool) → (Place → Option (List String)) → List String → String → Option (List String)
  match_one c next captures [] = none
  match_one c next captures (x ∷ s) =
      if c (code x)
      then next (record { previous = some (code x); rest = s; captures = captures })
      else none

  unfoldable pub match : Regex → (Place → Option (List String)) → Place → Option (List String)
  unfolding match_many
  match empty next p = next p
  match text_start next p = if is_none p.previous then next p else none
  match text_end next p = if at_end p.rest then next p else none
  match word_edge next p =
      if differ (word_before p.previous) (word_after p.rest) then next p else none
  match (one c) next p = match_one c next p.captures p.rest
  match (many c) next p = match_many c next p.captures p.previous p.rest
  match (seq r s) next p = match r (match s next) p
  match (alt r s) next p = first_of (match r next p) (match s next p)
  match (group r) next p =
      match r
        (λ q. next (record {
          previous = q.previous;
          rest = q.rest;
          captures = List.◌∷◌ (consumed p.rest q.rest) q.captures;
        }))
        p

  abbrev pub captured : Place → Option (List String)
  captured p = some p.captures

  unfoldable pub search_from : Regex → Option ℕ → String → Option (List String)
  unfolding match
  search_from r previous [] =
      match r captured (record { previous = previous; rest = []; captures = List.[] })
  search_from r previous (x ∷ s) =
      first_of (match r captured (record { previous = previous; rest = x ∷ s; captures = List.[] }))
        (search_from r (some (code x)) s)

  -- `pattern.search(text)`: the captures of the leftmost match, the latest first.
  abbrev pub search : Regex → String → Option (List String)
  search r s = search_from r none s

  abbrev pub found : Option (List String) → Bool
  found none = false
  found (some _) = true

  -- Whether the pattern is found.
  abbrev pub matches : Regex → String → Bool
  matches r s = found (search r s)
