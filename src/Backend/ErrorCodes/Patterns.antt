-- ===== src/Backend/ErrorCodes/Patterns.antt =====
-- The patterns of backend/error_codes.py.
use planes.Base.{
  ℕ, ◌+◌, ◌-◌, Bool, true, false, not, ◌&&◌, ◌||◌, Option, none, some, List, [], ◌∷◌, leb, eqb,
  if◌then◌else◌,
}
use planes.Base.Text.{is_space}
use planes.Base.Regex.{
  Regex, text_start, text_end, word_edge, one, many, seq, alt, group, literal, plus, optional,
}

infixr 6 ◌then_match◌
-- One pattern behind another.
abbrev pub ◌then_match◌ : Regex → Regex → Regex
r then_match s = seq r s

abbrev pub non_space : ℕ → Bool
non_space c = not (is_space c)

abbrev pub ascii_digit : ℕ → Bool
ascii_digit c = leb 48 c && leb c 57

-- The zeros of Unicode's runs of ten decimal digits.
abbrev pub decimal_zeros : List ℕ
decimal_zeros =
    0x30 ∷ 0x660 ∷ 0x6f0 ∷ 0x7c0 ∷ 0x966 ∷ 0x9e6 ∷ 0xa66 ∷ 0xae6 ∷ 0xb66 ∷ 0xbe6 ∷ 0xc66 ∷ 0xce6
    ∷ 0xd66 ∷ 0xde6 ∷ 0xe50 ∷ 0xed0 ∷ 0xf20 ∷ 0x1040 ∷ 0x1090 ∷ 0x17e0 ∷ 0x1810 ∷ 0x1946 ∷ 0x19d0
    ∷ 0x1a80 ∷ 0x1a90 ∷ 0x1b50 ∷ 0x1bb0 ∷ 0x1c40 ∷ 0x1c50 ∷ 0xa620 ∷ 0xa8d0 ∷ 0xa900 ∷ 0xa9d0
    ∷ 0xa9f0 ∷ 0xaa50 ∷ 0xabf0 ∷ 0xff10 ∷ 0x104a0 ∷ 0x10d30 ∷ 0x11066 ∷ 0x110f0 ∷ 0x11136 ∷ 0x111d0
    ∷ 0x112f0 ∷ 0x11450 ∷ 0x114d0 ∷ 0x11650 ∷ 0x116c0 ∷ 0x11730 ∷ 0x118e0 ∷ 0x11950 ∷ 0x11c50
    ∷ 0x11d50 ∷ 0x11da0 ∷ 0x11f50 ∷ 0x16a60 ∷ 0x16ac0 ∷ 0x16b50 ∷ 0x1d7ce ∷ 0x1d7d8 ∷ 0x1d7e2
    ∷ 0x1d7ec ∷ 0x1d7f6 ∷ 0x1e140 ∷ 0x1e2f0 ∷ 0x1e4f0 ∷ 0x1e950 ∷ 0x1fbf0 ∷ []

-- The value of a decimal digit, from the run that it stands in.
abbrev pub digit_in : List ℕ → ℕ → Option ℕ
digit_in [] c = none
digit_in (z ∷ zs) c = if leb z c && leb c (z + 9) then some (c - z) else digit_in zs c

abbrev pub digit_value : ℕ → Option ℕ
digit_value c = digit_in decimal_zeros c

abbrev pub is_decimal : ℕ → Bool
is_decimal c = elim (digit_value c) [ none ↦ false | some _ ↦ true ]

abbrev pub spaces : Regex
spaces = many is_space

abbrev pub some_spaces : Regex
some_spaces = plus is_space

-- `(\S+)`
abbrev pub name_group : Regex
name_group = group (plus non_space)

-- `\s*=\s*`
abbrev pub equals : Regex
equals = spaces then_match literal "=" then_match spaces

-- `([0-9]+(?:\.[0-9]+)?)`
abbrev pub number_group : Regex
number_group =
    group (plus ascii_digit then_match optional (literal "." then_match plus ascii_digit))

-- `.*`
abbrev pub anything : Regex
anything = many (λ c. not (eqb c 10))

abbrev pub uav_not_in_catalog_live : Regex
uav_not_in_catalog_live =
    literal "uav model"
    then_match some_spaces
    then_match name_group
    then_match some_spaces
    then_match literal "not in catalog"

abbrev pub unknown_uav : Regex
unknown_uav = literal "unknown uav model:" then_match some_spaces then_match name_group

abbrev pub camera_not_in_catalog : Regex
camera_not_in_catalog =
    literal "camera"
    then_match some_spaces
    then_match name_group
    then_match some_spaces
    then_match literal "not in catalog"

abbrev pub unknown_camera : Regex
unknown_camera = literal "unknown camera:" then_match some_spaces then_match name_group

abbrev pub incompatible : Regex
incompatible =
    literal "camera"
    then_match some_spaces
    then_match name_group
    then_match some_spaces
    then_match literal "is not compatible with model"
    then_match some_spaces
    then_match name_group

abbrev pub unknown_aerodrome_pattern : Regex
unknown_aerodrome_pattern =
    literal "unknown aerodrome:" then_match some_spaces then_match name_group

abbrev pub model_no_endurance : Regex
model_no_endurance =
    literal "model"
    then_match some_spaces
    then_match name_group
    then_match some_spaces
    then_match literal "has no positive endurance or "
    then_match optional (literal "survey/")
    then_match literal "airspeed"

abbrev pub wind_exceeds : Regex
wind_exceeds =
    literal "wind_mps"
    then_match equals
    then_match number_group
    then_match some_spaces
    then_match literal "exceeds"
    then_match some_spaces
    then_match literal "fleet_max_wind_mps"
    then_match equals
    then_match number_group
    then_match anything
    then_match literal "limiting model_id"
    then_match equals
    then_match group (plus (λ c. non_space c && not (eqb c 41)))

abbrev pub uncovered_swaths : Regex
uncovered_swaths =
    literal "uncovered"
    then_match many (λ c. eqb c 95 || is_space c || eqb c 45)
    then_match literal "swaths"
    then_match equals
    then_match group (plus is_decimal)

abbrev pub allow_recharge : Regex
allow_recharge =
    literal "allow_recharge"
    then_match equals
    then_match group (alt (literal "true") (literal "false"))

abbrev pub safety_margin : Regex
safety_margin = literal "safety_margin_m" then_match equals then_match number_group

abbrev pub clearance_count : Regex
clearance_count =
    group (plus is_decimal) then_match some_spaces then_match literal "clearance violation"

-- `(?:\s|$|,)`
abbrev list_end : Regex
list_end = alt (one is_space) (alt text_end (literal ","))

abbrev pub missing_aerodromes : Regex
missing_aerodromes =
    literal "missing fields:" then_match spaces then_match literal "aerodromes" then_match list_end

abbrev pub missing_boards : Regex
missing_boards =
    literal "missing fields:" then_match spaces then_match literal "boards" then_match list_end

abbrev pub no_boards : Regex
no_boards = word_edge then_match literal "no boards" then_match word_edge

abbrev pub no_swaths : Regex
no_swaths = text_start then_match literal "no swaths" then_match text_end

abbrev pub leftover_swaths : Regex
leftover_swaths = literal "leftover swaths not packed into a second sortie"

abbrev pub uncovered_needs_sortie : Regex
uncovered_needs_sortie =
    literal "uncovered swaths="
    then_match plus is_decimal
    then_match anything
    then_match literal "more than one sortie under endurance"

abbrev pub terrain_error : Regex
terrain_error = literal "terrain_clearance_violation"

abbrev pub strict_terrain : Regex
strict_terrain = literal "strict_terrain_check refused plan"

abbrev pub clearance_violation : Regex
clearance_violation = literal "clearance violation"

abbrev pub budget : Regex
budget = alt (literal "budgetexhausted") (literal "budget exhausted before route")

-- `_INTERNAL_LIMITATION`
abbrev pub internal_limitation : List Regex
internal_limitation =
    literal "sitecustomize"
    ∷ literal "traceback"
    ∷ (word_edge
        then_match literal "iso"
        then_match some_spaces
        then_match literal "f2c"
        then_match spaces
        then_match literal "=")
    ∷ (literal "mvp_on_path" then_match spaces then_match literal "=")
    ∷ (text_start then_match literal "live path:")
    ∷ literal "f2c_isolated_worker"
    ∷ literal "grisha_sitecustomize"
    ∷ []
