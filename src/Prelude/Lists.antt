-- ===== src/Prelude/Lists.antt =====
-- Lists measured by native numbers, and lists of texts as the program searches and filters them.
use Prim.Native.Nat.{ℕ, zero, suc, ◌+◌}
use Prim.Native.String.{String}
use mathlib.Core.Path.{◌≡◌, refl, ap}
use mathlib.Core.Bool.{Bool, false, ◌&&◌, ◌||◌, not}
use mathlib.Core.List.{List, [], ◌∷◌, ◌++◌}
use mathlib.Core.Option.{Option, none, some}
use native.Mathlib.Omega.{arith}
use text.Mathlib.Text.{◌==◌}
use text.Mathlib.TextEquality.{eq_iff}
use rebost.Prelude.Tests.{if◌then◌else◌, leb}

module _ {ℓ} {A : Type ℓ} where
  abbrev pub length : List A → ℕ
  length [] = 0
  length (x ∷ xs) = suc (length xs)

  abbrev pub get_elem? : List A → ℕ → Option A
  get_elem? [] i = none
  get_elem? (x ∷ xs) zero = some x
  get_elem? (x ∷ xs) (suc i) = get_elem? xs i

  abbrev pub take : ℕ → List A → List A
  take zero xs = []
  take (suc n) [] = []
  take (suc n) (x ∷ xs) = x ∷ take n xs

  pub length-take :
      (n : ℕ) (xs : List A) → length (take n xs) ≡ (if leb (length xs) n then length xs else n)
  length-take zero [] = refl
  length-take zero (x ∷ xs) = ground arith
  length-take (suc n) [] = ground arith
  length-take (suc n) (x ∷ xs) = ground (arith, length-take n xs)

  pub take_append : (n : ℕ) (xs : List A) → (rest : List A) × (xs ≡ take n xs ++ rest)
  take_append zero xs = (xs, refl)
  take_append (suc n) [] = ([], refl)
  take_append (suc n) (x ∷ xs) = let (rest, e) = take_append n xs in (rest, ap (λ ys. x ∷ ys) e)

  pub length-append : (xs ys : List A) → length (xs ++ ys) ≡ length xs + length ys
  length-append [] ys = omega arith
  length-append (x ∷ xs) ys = omega (arith, length-append xs ys)

-- A loop `for _, s := range l { if s == a … }` that looks for a text.
unfoldable pub contains : List String → String → Bool
contains [] a = false
contains (x ∷ xs) a = x == a || contains xs a

-- A loop that copies all but one text into a new slice.
unfoldable pub without : String → List String → List String
without a [] = []
without a (x ∷ xs) = let rest = without a xs in if x == a then rest else x ∷ rest

pub contains-append :
    (xs ys : List String) (a : String) → contains (xs ++ ys) a ≡ (contains xs a || contains ys a)
unfolding contains
contains-append [] ys a = refl
contains-append (x ∷ xs) ys a = ground (arith, contains-append xs ys a)

-- A text is left exactly when it was there and is not the one that is removed.
pub contains-without :
    (a : String) (xs : List String) (b : String)
    → contains (without a xs) b ≡ (contains xs b && not (a == b))
unfolding contains without
contains-without a [] b = refl
contains-without a (x ∷ xs) b =
    ground (arith, contains-without a xs b, eq_iff x a, eq_iff x b, eq_iff a b)

pub without_absent : (a : String) (xs : List String) → contains xs a ≡ false → without a xs ≡ xs
unfolding contains without
without_absent a [] h = refl
without_absent a (x ∷ xs) h = ground (arith, without_absent a xs)
