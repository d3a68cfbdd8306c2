-- ===== src/Base/Text.antt =====
-- Texts by their code points: order, blankness, character classes.
use Prim.Native.Nat.{ℕ, ◌+◌, compare, Ordering}
use Prim.Native.Char.{code}
use Prim.Native.String.{String, [], ◌∷◌, ◌++◌}
use mathlib.Core.List.{List}
use mathlib.Core.Path.{◌≡◌, refl}
use mathlib.Core.Logic.{◌⊎◌, inl, inr}
use mathlib.Core.Bool.{Bool, true, false, ◌&&◌, ◌||◌}
use native.Mathlib.Omega.{arith}
use text.Mathlib.TextEquality.{Char-path}
use mathlib.Core.Option.{Option, none, some}
use text.Mathlib.TextLemmas.{nil-append, cons-append}
use planes.Base.Tests.{leb, eqb, if◌then◌else◌}

-- `str.isspace` of one character.
abbrev pub is_space : ℕ → Bool
is_space c =
    leb 9 c && leb c 13
    || leb 28 c && leb c 32
    || eqb c 0x85
    || eqb c 0xa0
    || eqb c 0x1680
    || leb 0x2000 c && leb c 0x200a
    || eqb c 0x2028
    || eqb c 0x2029
    || eqb c 0x202f
    || eqb c 0x205f
    || eqb c 0x3000

-- `not text.strip()`: the text is empty or all white space.
unfoldable pub is_blank : String → Bool
is_blank [] = true
is_blank (c ∷ s) = is_space (code c) && is_blank s

-- The order of texts by code points, which SQLite's BINARY collation and Python's `<=` use.
unfoldable pub text_leb : String → String → Bool
text_leb [] t = true
text_leb (c ∷ s) [] = false
text_leb (c ∷ s) (d ∷ t) = elim (compare (code c) (code d)) [
  | Ordering.lt ↦ true
  | Ordering.eq ↦ text_leb s t
  | Ordering.gt ↦ false
]

pub text_leb_refl : (s : String) → text_leb s s ≡ true
unfolding text_leb
text_leb_refl [] = refl
text_leb_refl (c ∷ s) = ground (arith, text_leb_refl s)

pub text_leb_total : (s t : String) → (text_leb s t ≡ true) ⊎ (text_leb t s ≡ true)
unfolding text_leb
text_leb_total [] t = inl refl
text_leb_total (c ∷ s) [] = inr refl
text_leb_total (c ∷ s) (d ∷ t) = ground (arith, text_leb_total s t)

pub text_leb_trans :
    (s t u : String) → text_leb s t ≡ true → text_leb t u ≡ true → text_leb s u ≡ true
unfolding text_leb
text_leb_trans [] t u h k = refl
text_leb_trans (c ∷ s) [] u h k = cc
text_leb_trans (c ∷ s) (d ∷ t) [] h k = cc
text_leb_trans (c ∷ s) (d ∷ t) (e ∷ u) h k = ground (arith, text_leb_trans s t u)

pub text_leb_antisymm : (s t : String) → text_leb s t ≡ true → text_leb t s ≡ true → s ≡ t
unfolding text_leb
text_leb_antisymm [] [] h k = refl
text_leb_antisymm [] (d ∷ t) h k = cc
text_leb_antisymm (c ∷ s) [] h k = cc
text_leb_antisymm (c ∷ s) (d ∷ t) h k = ground (arith, Char-path c d, text_leb_antisymm s t)

-- The value of an f-string, from its pieces.
abbrev pub f_string : List String → String
f_string List.[] = ""
f_string (List.◌∷◌ piece pieces) = piece ++ f_string pieces

-- `separator.join(pieces)`
abbrev pub join : String → List String → String
join separator List.[] = ""
join separator (List.◌∷◌ piece List.[]) = piece
join separator (List.◌∷◌ piece (List.◌∷◌ next pieces)) =
    piece ++ (separator ++ join separator (List.◌∷◌ next pieces))

-- The rest of a text behind a prefix.
unfoldable pub strip_prefix : String → String → Option String
strip_prefix [] s = some s
strip_prefix (c ∷ p) [] = none
strip_prefix (c ∷ p) (d ∷ s) = if eqb (code c) (code d) then strip_prefix p s else none

pub strip_prefix-append : (p s : String) → strip_prefix p (p ++ s) ≡ some s
unfolding strip_prefix
strip_prefix-append [] s = rw nil-append refl
strip_prefix-append (c ∷ p) s = rw cons-append (ground (arith, strip_prefix-append p s))

pub strip_prefix-some : (p t s : String) → strip_prefix p t ≡ some s → t ≡ p ++ s
unfolding strip_prefix
strip_prefix-some [] t s h = rw nil-append (cc)
strip_prefix-some (c ∷ p) [] s h = cc
strip_prefix-some (c ∷ p) (d ∷ t) s h =
    rw cons-append (ground (arith, Char-path c d, strip_prefix-some p t s))

-- `text.lstrip()`, `text.rstrip()` and `text.strip()`
unfoldable pub strip_left : String → String
strip_left [] = []
strip_left (c ∷ s) = let rest = strip_left s in if is_space (code c) then rest else c ∷ s

abbrev keep_or_drop : Bool → String → String → String
keep_or_drop true [] whole = []
keep_or_drop _ _ whole = whole

unfoldable pub strip_right : String → String
strip_right [] = []
strip_right (c ∷ s) = let rest = strip_right s in keep_or_drop (is_space (code c)) rest (c ∷ rest)

abbrev pub strip : String → String
strip s = strip_right (strip_left s)

-- `text.lower()`, as far as a letter of ASCII is its value and the dotted I does not stand in the text.
abbrev pub lower_code : ℕ → ℕ
lower_code c = if leb 65 c && leb c 90 then c + 32 else if eqb c 0x212a then 107 else c

-- Whether the lowered text begins with the given one.
unfoldable pub lower_starts : String → String → Bool
lower_starts [] s = true
lower_starts (c ∷ p) [] = false
lower_starts (c ∷ p) (d ∷ s) = eqb (code c) (lower_code (code d)) && lower_starts p s

-- `part in text.lower()`
unfoldable pub lower_holds : String → String → Bool
unfolding lower_starts
lower_holds part [] = lower_starts part []
lower_holds part (c ∷ s) = lower_starts part (c ∷ s) || lower_holds part s

-- The left fold over a text's code points.
abbrev pub fold_text : (ℕ → ℕ → ℕ) → ℕ → String → ℕ
fold_text f n [] = n
fold_text f n (c ∷ s) = fold_text f (f n (code c)) s

-- `text.lower() == word`
unfoldable pub lower_is : String → String → Bool
lower_is [] [] = true
lower_is (c ∷ p) (d ∷ s) = eqb (code c) (lower_code (code d)) && lower_is p s
lower_is _ _ = false

-- Whether a character of the text passes the test.
unfoldable pub any_char : (ℕ → Bool) → String → Bool
any_char p [] = false
any_char p (c ∷ s) = p (code c) || any_char p s
