-- ===== src/Stack/Pool/Classes.antt =====
-- The size classes of a thread cache: what a stack that is put into one does to the sums over them.
use stackfull.Base.{
  ℕ, zero, suc, ◌+◌, ◌-◌, ◌≤◌, ◌≡◌, refl, ap, subst, inl, inr, Option, none, some, List, [], ◌∷◌,
  arith, ◌==◌, ==_iff, Bool-cases, none≢some, get_elem?, All, sum_by,
}
use mathlib.Core.Option.{some-injective}
use stackfull.Stack.Pool.{StackView, SizeClass, node_of, view_of, modify, next_index, find_class}

pub view_of-node_of : (s : StackView) → 8 ≤ s.size → view_of (node_of s) s.size ≡ s
view_of-node_of s wide =
    let same : s.base + s.size - 8 + 8 - s.size ≡ s.base = omega arith in rw same refl

pub sum_by-modify {ℓ} :
    {A : Type ℓ} (g : A → ℕ) (xs : List A) (i : ℕ) (h : A → A) (x : A)
    → get_elem? xs i ≡ some x
    → sum_by g (modify xs i h) + g x ≡ sum_by g xs + g (h x)
sum_by-modify g [] i h x e = cc
sum_by-modify g (y ∷ ys) zero h x e =
    let same = some-injective _ _ e in
    let to = ap g same in let to' = ap (λ z. g (h z)) same in omega arith
sum_by-modify g (y ∷ ys) (suc i) h x e = omega (arith, sum_by-modify g ys i h x e)

pub All-modify {ℓ κ} :
    {A : Type ℓ} (P : A → Type κ) (xs : List A) (i : ℕ) (h : A → A)
    → ((x : A) → get_elem? xs i ≡ some x → P x → P (h x))
    → All P xs
    → All P (modify xs i h)
All-modify P [] i h f all = tt
All-modify P (y ∷ ys) zero h f all = (f y refl all.0, all.1)
All-modify P (y ∷ ys) (suc i) h f all = (all.0, All-modify P ys i h f all.1)

pub get_elem?-modify {ℓ} :
    {A : Type ℓ} (xs : List A) (i : ℕ) (h : A → A) (x : A)
    → get_elem? xs i ≡ some x
    → get_elem? (modify xs i h) i ≡ some (h x)
get_elem?-modify [] i h x e = cc
get_elem?-modify (y ∷ ys) zero h x e = ap (λ z. some (h z)) (some-injective _ _ e)
get_elem?-modify (y ∷ ys) (suc i) h x e = get_elem?-modify ys i h x e

pub All-at {ℓ κ} :
    {A : Type ℓ} (P : A → Type κ) (xs : List A) (i : ℕ) (x : A)
    → All P xs
    → get_elem? xs i ≡ some x
    → P x
All-at P [] i x all e = absurd (none≢some x e)
All-at P (y ∷ ys) zero x all e = subst P (some-injective _ _ e) all.0
All-at P (y ∷ ys) (suc i) x all e = All-at P ys i x all.1 e

next_index-some :
    (o : Option ℕ) (i : ℕ) → next_index o ≡ some i → (k : ℕ) × (o ≡ some k) × (suc k ≡ i)
next_index-some none i e = absurd (none≢some i e)
next_index-some (some k) i e = (k, refl, some-injective _ _ e)

pub find_class-size :
    (cs : List SizeClass) (size i : ℕ)
    → find_class cs size ≡ some i
    → (c : SizeClass) × (get_elem? cs i ≡ some c) × (c.size ≡ size)
unfolding find_class
find_class-size [] size i e = absurd (none≢some i e)
find_class-size (c ∷ cs) size i e = elim (Bool-cases (c.size == size)) [
  | inl same ↦
      let here = some-injective _ _ (rw same at e) in
      (c, subst (λ k. get_elem? (c ∷ cs) k ≡ some c) here refl, (==_iff c.size size).0 same)
  | inr other ↦
      let (k, found, next) = next_index-some (find_class cs size) i (rw other at e) in
      let (c', at_k, size_k) = find_class-size cs size k found in
      (c', subst (λ j. get_elem? (c ∷ cs) j ≡ some c') next at_k, size_k)
]
