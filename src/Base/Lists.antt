-- ===== src/Base/Lists.antt =====
-- Lists over the native numbers, and the bytes of a text.
use Prim.Native.Nat.{ℕ, zero, suc, ◌+◌, ◌≤◌, ◌<◌}
use Prim.Native.Char.{code}
use Prim.Native.String.{String}
use mathlib.Core.Path.{◌≡◌, refl, ap}
use mathlib.Core.Option.{Option, none, some}
use mathlib.Core.List.{List, [], ◌∷◌, ◌++◌}
use native.Mathlib.Omega.{arith}

-- The code points of a text: its bytes, as every literal is ASCII.
abbrev pub codes : String → List ℕ
codes String.[] = []
codes (String.◌∷◌ c s) = code c ∷ codes s

module _ {ℓ} {A : Type ℓ} where
  abbrev pub length : List A → ℕ
  length [] = 0
  length (x ∷ xs) = suc (length xs)

  abbrev pub get_elem? : List A → ℕ → Option A
  get_elem? [] i = none
  get_elem? (x ∷ xs) zero = some x
  get_elem? (x ∷ xs) (suc i) = get_elem? xs i

  abbrev pub take : ℕ → List A → List A
  take zero xs = []
  take (suc n) [] = []
  take (suc n) (x ∷ xs) = x ∷ take n xs

  abbrev pub drop : ℕ → List A → List A
  drop zero xs = xs
  drop (suc n) [] = []
  drop (suc n) (x ∷ xs) = drop n xs

  pub length-append : (xs ys : List A) → length (xs ++ ys) ≡ length xs + length ys
  length-append [] ys = omega arith
  length-append (x ∷ xs) ys = omega (arith, length-append xs ys)

  pub take-length : (xs : List A) → take (length xs) xs ≡ xs
  take-length [] = refl
  take-length (x ∷ xs) = ap (◌∷◌ x) (take-length xs)

  take-nil : (n : ℕ) → take n [] ≡ []
  take-nil zero = refl
  take-nil (suc n) = refl

  -- The first `n` of a list, and of the list with one more at its end.
  pub take-short :
      (n : ℕ) (xs : List A) (y : A)
      → length (take n xs) < n
      → take n (xs ++ (y ∷ [])) ≡ take n xs ++ (y ∷ [])
  take-short zero xs y short = absurd (omega (arith, short))
  take-short (suc n) [] y short = rw (take-nil n) refl
  take-short (suc n) (x ∷ xs) y short = ap (◌∷◌ x) (take-short n xs y (omega arith))

  pub take-full :
      (n : ℕ) (xs : List A) (y : A) → n ≤ length (take n xs) → take n (xs ++ (y ∷ [])) ≡ take n xs
  take-full zero xs y full = refl
  take-full (suc n) [] y full = absurd (omega (arith, full))
  take-full (suc n) (x ∷ xs) y full = ap (◌∷◌ x) (take-full n xs y (omega arith))
