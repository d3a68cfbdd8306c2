-- ===== src/Base/Lists.antt =====
-- Lists measured by native numbers, Boolean tests over lists, and predicates by recursion.
use Prim.Native.Nat.{ℕ, suc, ◌+◌}
use Prim.Native.String.{String}
use mathlib.Core.Path.{◌≡◌}
use mathlib.Core.Logic.{◌⊎◌}
use mathlib.Core.Bool.{Bool, true, false, ◌&&◌, ◌||◌}
use mathlib.Core.List.{List, [], ◌∷◌, ◌++◌}
use native.Mathlib.Omega.{arith}
use text.Mathlib.Text.{◌==◌}

module _ {ℓ} {A : Type ℓ} where
  abbrev pub length : List A → ℕ
  length [] = 0
  length (x ∷ xs) = suc (length xs)

  abbrev pub any : (A → Bool) → List A → Bool
  any p [] = false
  any p (x ∷ xs) = p x || any p xs

  abbrev pub all : (A → Bool) → List A → Bool
  all p [] = true
  all p (x ∷ xs) = p x && all p xs

  pub length-append : (xs ys : List A) → length (xs ++ ys) ≡ length xs + length ys
  length-append [] ys = omega arith
  length-append (x ∷ xs) ys = omega (arith, length-append xs ys)

-- `P` holds of every element, as a tuple of proofs.
abbrev pub All {κ μ} : {Item : Type κ} → (Item → Type μ) → List Item → Type μ
All holds (item ∷ items) = holds item × All holds items
All holds [] = Unit

pub All-append {κ μ} :
    {Item : Type κ} (holds : Item → Type μ) (xs ys : List Item)
    → All holds xs
    → All holds ys
    → All holds (xs ++ ys)
All-append holds [] ys first second = second
All-append holds (x ∷ xs) ys first second = (first.0, All-append holds xs ys first.1 second)

pub All-imp {κ μ ν} :
    {Item : Type κ} {P : Item → Type μ} {Q : Item → Type ν} (xs : List Item)
    → ((x : Item) → P x → Q x)
    → All P xs
    → All Q xs
All-imp [] f h = tt
All-imp (x ∷ xs) f h = (f x h.0, All-imp xs f h.1)

-- `a` stands in the list, with the place where it stands.
abbrev pub In : {A : Type 0} → A → List A → Type 0
In a [] = ⊥
In a (x ∷ xs) = (a ≡ x) ⊎ In a xs

-- `k in names`, for a list or a set of texts.
abbrev pub contains : String → List String → Bool
contains k [] = false
contains k (x ∷ xs) = k == x || contains k xs
