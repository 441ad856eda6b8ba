-- ===== src/Sync/Slots/Around.antt =====
-- Reading an array round from an index, and what writes do to that.
use stackfull.Base.{
  false, ==_iff, true, length-set, lt→ltb, ltb, ℕ, ◌+◌, ◌-◌, ◌%◌, ◌<◌, ◌≡◌, refl, ap, ◌∙◌, some,
  List, [], ◌∷◌, ◌++◌, arith, ◌==◌, if◌then◌else◌, length, get_elem?, set, length-append,
  Bool-cases, inl, inr,
}
use native.Mathlib.Nat.{add-zero, mod-add-mod, mod-eq_of_lt, mod-eq-sub-mod, mod-lt}
use native.Mathlib.Decide.{dec_lt}
use Prim.Native.Nat.{zero, suc}

module _ {ℓ} {A : Type ℓ} where
  pub get_elem?-set :
      (xs : List A) (i j : ℕ) (v : A)
      → i < length xs
      → get_elem? (set xs i v) j ≡ (if i == j then some v else get_elem? xs j)
  get_elem?-set [] i j v h = absurd (omega arith)
  get_elem?-set (x ∷ xs) zero zero v h = refl
  get_elem?-set (x ∷ xs) (suc i) (suc j) v h = ground (arith, get_elem?-set xs i j v)
  get_elem?-set (x ∷ xs) i j v h = ground arith

  pub get_elem?-append :
      (xs : List A) (y : A) (i : ℕ)
      → get_elem? (xs ++ y ∷ []) i ≡ (if i == length xs then some y else get_elem? xs i)
  get_elem?-append [] y zero = refl
  get_elem?-append [] y (suc i) = ground arith
  get_elem?-append (x ∷ xs) y zero = ground arith
  get_elem?-append (x ∷ xs) y (suc i) = ground (arith, get_elem?-append xs y i)

  pub get_elem?-cons : (x : A) (xs : List A) (i : ℕ) → get_elem? (x ∷ xs) (i + 1) ≡ get_elem? xs i
  get_elem?-cons x xs i = ground arith

  -- The entries of `xs`, as many as it has, read round from index `h`, are `os`.
  abbrev pub Around : List A → ℕ → List A → Type ℓ
  Around xs h os =
      (length os ≡ length xs)
      × ((i : ℕ) → i < length xs → get_elem? xs ((h + i) % length xs) ≡ get_elem? os i)

-- Where index `i` of the reading stands in the array.
wrap_lem : (n h i : ℕ) → h < n → i < n → (h + i) % n ≡ (if ltb (h + i) n then h + i else h + i - n)
wrap_lem n h i p q = elim (dec_lt (h + i) n) [
  | yes r ↦ rw (lt→ltb (h + i) n r) (mod-eq_of_lt r)
  | no r ↦ ground (
    arith,
    mod-eq-sub-mod {n = h + i} {m = n} (omega arith),
    mod-eq_of_lt {n = h + i - n} {m = n} (omega arith),
  )
]

-- Different indices stand at different places.
pub wrap-== : (n h i j : ℕ) → h < n → i < n → j < n → ((h + i) % n == (h + j) % n) ≡ (i == j)
wrap-== n h i j p q r = ground (arith, wrap_lem n h i p q, wrap_lem n h j p r)

wrap_next :
    (n h i : ℕ)
    → h < n
    → i < n
    → ((h + 1) % n + i) % n ≡ (if i == n - 1 then h else (h + (i + 1)) % n)
wrap_next n h i p q = elim (Bool-cases (i == n - 1)) [
  | inl e ↦ rw e (
      rw mod-add-mod (
        omega (
          arith,
          mod-eq-sub-mod {n = h + 1 + i} {m = n} (ground arith),
          mod-eq_of_lt {n = h + 1 + i - n} {m = n} (ground arith),
          (==_iff i (n - 1)).0 e,
        )))
  | inr e ↦ rw e (rw mod-add-mod (ap (λ (k : ℕ). k % n) (omega arith)))
]

module _ {ℓ} {A : Type ℓ} (xs : List A) (h : ℕ) where
  -- A write at a place of the reading.
  pub set-Around :
      (os : List A) (i : ℕ) (v : A)
      → h < length xs
      → i < length xs
      → Around xs h os
      → Around (set xs ((h + i) % length xs) v) h (set os i v)
  set-Around os i v p q (n, r) = (
    rw (length-set, length-set) n,
    λ j t.
        let t' : j < length xs = rw length-set at t in
        rw (
          length-set,
          get_elem?-set xs ((h + i) % length xs) ((h + j) % length xs) v (omega (arith, mod-lt)),
          get_elem?-set os i j v (omega arith),
          wrap-== (length xs) h i j p q t',
          r j t',
        ),
  )

  -- A reading from the next index on.
  pub rotate-Around :
      (o : A) (os : List A)
      → h < length xs
      → Around xs h (o ∷ os)
      → Around xs ((h + 1) % length xs) (os ++ o ∷ [])
  rotate-Around o os p (n, r) = (
    rw length-append (omega arith),
    λ j t.
        rw (wrap_next (length xs) h j p t, get_elem?-append os o j)
          (elim (Bool-cases (j == length xs - 1)) [
            | inl e ↦ rw e (rw (last_place j e) (rw (first_place) at (r 0 (omega arith))))
            | inr e ↦ rw e (rw (other_place j e) (r (j + 1) (ground arith) ∙ get_elem?-cons o os j))
          ]),
  )
    where
      last_place : (j : ℕ) → (j == length xs - 1) ≡ true → (j == length os) ≡ true
      last_place j e = ground (arith, n)

      other_place : (j : ℕ) → (j == length xs - 1) ≡ false → (j == length os) ≡ false
      other_place j e = ground (arith, n)

      first_place : (h + 0) % length xs ≡ h
      first_place = rw add-zero (mod-eq_of_lt p)
