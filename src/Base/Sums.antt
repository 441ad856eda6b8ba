-- ===== src/Base/Sums.antt =====
-- Sums over a list, and what a write to one place does to them.
use Prim.Native.Nat.{ℕ, zero, suc, ◌+◌, ◌≤◌, ◌<◌}
use mathlib.Core.Path.{◌≡◌, refl, ap}
use mathlib.Core.List.{List, [], ◌∷◌, ◌++◌}
use mathlib.Core.Option.{some, some-injective}
use native.Mathlib.Omega.{arith}
use native.Mathlib.Decide.{dec_lt}
use stackfull.Base.Lists.{get_elem?, set, replicate}

module _ {ℓ} {A : Type ℓ} where
  abbrev pub sum_by : (A → ℕ) → List A → ℕ
  sum_by f [] = 0
  sum_by f (x ∷ xs) = f x + sum_by f xs

  pub sum_by-set :
      (f : A → ℕ) (xs : List A) (i : ℕ) (x y : A)
      → get_elem? xs i ≡ some x
      → sum_by f (set xs i y) + f x ≡ sum_by f xs + f y
  sum_by-set f [] i x y e = cc
  sum_by-set f (z ∷ xs) zero x y e = let same = ap f (some-injective _ _ e) in omega arith
  sum_by-set f (z ∷ xs) (suc i) x y e = omega (arith, sum_by-set f xs i x y e)

  pub le-sum_by :
      (f : A → ℕ) (xs : List A) (i : ℕ) (x : A) → get_elem? xs i ≡ some x → f x ≤ sum_by f xs
  le-sum_by f [] i x e = cc
  le-sum_by f (z ∷ xs) zero x e = let same = ap f (some-injective _ _ e) in omega arith
  le-sum_by f (z ∷ xs) (suc i) x e = omega (arith, le-sum_by f xs i x e)

  pub sum_by_mono :
      (f g h : A → ℕ)
      → ((x : A) → f x + g x ≤ h x)
      → (xs : List A) → sum_by f xs + sum_by g xs ≤ sum_by h xs
  sum_by_mono f g h le [] = omega arith
  sum_by_mono f g h le (x ∷ xs) = omega (arith, le x, sum_by_mono f g h le xs)

  pub sum_by-replicate : (f : A → ℕ) (a : A) → f a ≡ 0 → (k : ℕ) → sum_by f (replicate k a) ≡ 0
  sum_by-replicate f a e zero = refl
  sum_by-replicate f a e (suc k) = omega (arith, e, sum_by-replicate f a e k)

  pub sum_by-append : (f : A → ℕ) (xs ys : List A) → sum_by f (xs ++ ys) ≡ sum_by f xs + sum_by f ys
  sum_by-append f [] ys = omega arith
  sum_by-append f (x ∷ xs) ys = omega (arith, sum_by-append f xs ys)

  -- A sum that is not zero has a place that is not.
  pub sum_by-place :
      (f : A → ℕ) (xs : List A)
      → 0 < sum_by f xs
      → (i : ℕ) × (x : A) × (get_elem? xs i ≡ some x) × (0 < f x)
  sum_by-place f [] pos = absurd (omega arith)
  sum_by-place f (x ∷ xs) pos = elim (dec_lt 0 (f x)) [
    | yes here ↦ (0, x, refl, here)
    | no nothing ↦ let (i, y, e, at) = sum_by-place f xs (omega arith) in (suc i, y, e, at)
  ]
