-- ===== src/Base/Lists.antt =====
-- Lists measured and cut by native numbers, under the library's names.
use Prim.Native.Nat.{ℕ, zero, suc, ◌+◌, ◌≤◌}
use mathlib.Core.Path.{◌≡◌, refl}
use mathlib.Core.Bool.{Bool, false, ◌||◌}
use mathlib.Core.List.{List, [], ◌∷◌, ◌++◌}
use native.Mathlib.Omega.{arith}

module _ {ℓ} {A : Type ℓ} where
  abbrev pub length : List A → ℕ
  length [] = 0
  length (x ∷ xs) = suc (length xs)

  abbrev pub take : ℕ → List A → List A
  take zero xs = []
  take (suc n) [] = []
  take (suc n) (x ∷ xs) = x ∷ take n xs

  -- `xs.push(x)`
  abbrev pub push : List A → A → List A
  push [] a = a ∷ []
  push (x ∷ xs) a = x ∷ push xs a

  -- `xs.shift()`, without the element
  abbrev pub shift : List A → List A
  shift [] = []
  shift (x ∷ xs) = xs

  pub length-append : (xs ys : List A) → length (xs ++ ys) ≡ length xs + length ys
  length-append [] ys = omega arith
  length-append (x ∷ xs) ys = omega (arith, length-append xs ys)

  pub length-push : (xs : List A) (a : A) → length (push xs a) ≡ length xs + 1
  length-push [] a = omega arith
  length-push (x ∷ xs) a = omega (arith, length-push xs a)

  pub length-shift : (xs : List A) → length (shift xs) + 1 ≤ length xs + 1
  length-shift [] = omega arith
  length-shift (x ∷ xs) = omega arith

  pub length-take : (n : ℕ) (xs : List A) → n ≤ length xs → length (take n xs) ≡ n
  length-take zero xs h = refl
  length-take (suc n) [] h = absurd (omega arith)
  length-take (suc n) (x ∷ xs) h = omega (arith, length-take n xs (omega arith))

module _ {ℓ} {A : Type ℓ} where
  pub take-push : (n : ℕ) (xs : List A) (a : A) → n ≤ length xs → take n (push xs a) ≡ take n xs
  take-push zero xs a h = refl
  take-push (suc n) [] a h = absurd (omega arith)
  take-push (suc n) (x ∷ xs) a h = rw (take-push n xs a (omega arith))

-- `xs.some(p)`
abbrev pub any {ℓ} : {A : Type ℓ} → (A → Bool) → List A → Bool
any p [] = false
any p (x ∷ xs) = p x || any p xs

-- A predicate of every element.
abbrev pub All {ℓ κ} : {A : Type ℓ} → (A → Type κ) → List A → Type κ
All P [] = Unit
All P (x ∷ xs) = P x × All P xs
