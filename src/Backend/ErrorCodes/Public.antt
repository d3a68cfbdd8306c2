-- ===== src/Backend/ErrorCodes/Public.antt =====
-- `is_internal_limitation` and `public_limitations` of backend/error_codes.py. Its `unique_limitations`
-- is the loop of runtime/types.py.
pub mod Visible
use planes.Base.{ℕ, String, ◌==◌, Bool, true, false, not, ◌||◌, List, [], ◌∷◌, if◌then◌else◌}
use planes.Base.Text.{is_blank, strip}
use planes.Base.Regex.{Regex, matches}
use planes.Runtime.Contract.Limitations.{unique_limitations}
use planes.Backend.ErrorCodes.Patterns.{internal_limitation}

module _ (is_alnum : ℕ → Bool) where
  abbrev pub any_matches : List Regex → String → Bool
  any_matches [] s = false
  any_matches (r ∷ rs) s = matches is_alnum r s || any_matches rs s

  unfoldable pub is_internal_limitation : String → Bool
  is_internal_limitation text =
      let stripped = strip text in
      if stripped == "" then true else any_matches internal_limitation stripped

  -- The items that are not blank, stripped, without the internal ones.
  unfoldable pub shown : List String → List String
  unfolding is_internal_limitation
  shown [] = []
  shown (item ∷ items) =
      let rest = shown items in
      let stripped = strip item in
      if stripped == ""
      then rest
      else if is_internal_limitation stripped
      then rest
      else stripped ∷ rest

  unfoldable pub public_limitations : List String → List String
  unfolding shown unique_limitations
  public_limitations items = unique_limitations (shown items)
