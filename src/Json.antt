-- ===== src/Json.antt =====
-- JSON data as Python holds it after `json.loads`: ints are unbounded, floats are doubles. A dict is
-- the list of its entries; no code here depends on the order of keys.
pub mod Loading
pub mod Numbers
pub mod Updates
pub use Numbers.{Float, nan, infinity, neg_infinity, finite, Number, int, float}
use planes.Base.{String, Bool, true, false, ◌==◌, ◌&&◌, List, [], ◌∷◌, if◌then◌else◌}

mutual
  pub data Json : Type 0 where
    null : Json
    bool : Bool → Json
    num : Number → Json
    str : String → Json
    arr : Items → Json
    obj : Fields → Json

  pub data Items : Type 0 where
    nil : Items
    cons : Json → Items → Items

  pub data Fields : Type 0 where
    end : Fields
    field : String → Json → Fields → Fields

-- `d.get(key)`: a missing key reads as `None`, which is `null`.
abbrev pub get : String → Fields → Json
get k end = null
get k (field j v fs) = if j == k then v else get k fs

-- `key in d`
abbrev pub has : String → Fields → Bool
has k end = false
has k (field j v fs) = if j == k then true else has k fs

-- `not d`
abbrev pub is_empty : Fields → Bool
is_empty end = true
is_empty (field _ _ _) = false

-- `value == text`
abbrev pub is_text : String → Json → Bool
is_text t (str s) = s == t
is_text t _ = false

-- `isinstance(value, dict)`
abbrev pub is_dict : Json → Bool
is_dict (obj _) = true
is_dict _ = false

-- A Python list of values, as a list.
abbrev pub elements : Items → List Json
elements nil = []
elements (cons x xs) = x ∷ elements xs

abbrev pub of_list : List Json → Items
of_list [] = nil
of_list (x ∷ xs) = cons x (of_list xs)

abbrev pub text_items : List String → Items
text_items [] = nil
text_items (x ∷ xs) = cons (str x) (text_items xs)

-- Whether `json.dumps(value, allow_nan=False)` accepts every number in the value.
unfoldable mutual
  pub is_finite : Json → Bool
  is_finite null = true
  is_finite (bool _) = true
  is_finite (num n) = Numbers.is_finite n
  is_finite (str _) = true
  is_finite (arr xs) = items_finite xs
  is_finite (obj fs) = fields_finite fs

  pub items_finite : Items → Bool
  items_finite nil = true
  items_finite (cons x xs) = is_finite x && items_finite xs

  pub fields_finite : Fields → Bool
  fields_finite end = true
  fields_finite (field _ v fs) = is_finite v && fields_finite fs

-- Whether `json.dumps` can print every integer in the value.
unfoldable mutual
  pub is_short : Json → Bool
  is_short null = true
  is_short (bool _) = true
  is_short (num n) = Numbers.is_printable n
  is_short (str _) = true
  is_short (arr xs) = items_short xs
  is_short (obj fs) = fields_short fs

  pub items_short : Items → Bool
  items_short nil = true
  items_short (cons x xs) = is_short x && items_short xs

  pub fields_short : Fields → Bool
  fields_short end = true
  fields_short (field _ v fs) = is_short v && fields_short fs
