-- ===== src/Sched/SlotCache/Sections.antt =====
-- What one critical section on a cache, or one access to the shared list, keeps.
use stackfull.Base.{
  ℕ, zero, suc, ◌+◌, ◌≤◌, ◌≡◌, refl, ap, subst, some, List, [], ◌∷◌, arith, ◌==◌, if-cases, length,
  get_elem?, set, take, drop, sum_by, sum_by-set, sum_by-append,
}
use mathlib.Core.List.{reverse, reverse_aux}
use mathlib.Core.Option.{some-injective}
use stackfull.Sched.SlotCache.{
  capacity, batch, Point, outside, acquired, releases, Slots, refill, take_newest, put_back,
  pop_shared,
}

sum_by-reverse_aux :
    (f : ℕ → ℕ) (xs ys : List ℕ) → sum_by f (reverse_aux xs ys) ≡ sum_by f xs + sum_by f ys
sum_by-reverse_aux f [] ys = omega arith
sum_by-reverse_aux f (x ∷ xs) ys = omega (arith, sum_by-reverse_aux f xs (x ∷ ys))

sum_by-reverse : (f : ℕ → ℕ) (xs : List ℕ) → sum_by f (reverse xs) ≡ sum_by f xs
sum_by-reverse f xs = omega (arith, sum_by-reverse_aux f xs [])

sum_by-split :
    (f : ℕ → ℕ) (n : ℕ) (xs : List ℕ) → sum_by f (take n xs) + sum_by f (drop n xs) ≡ sum_by f xs
sum_by-split f zero xs = omega arith
sum_by-split f (suc n) [] = refl
sum_by-split f (suc n) (x ∷ xs) = omega (arith, sum_by-split f n xs)

length-take_le : (n : ℕ) (xs : List ℕ) → length (take n xs) ≤ n
length-take_le zero xs = omega arith
length-take_le (suc n) [] = omega arith
length-take_le (suc n) (x ∷ xs) = omega (arith, length-take_le n xs)

-- The slot that a party has.
abbrev pub held : (ℕ → ℕ) → Point → ℕ
held f (acquired slot) = f slot
held f (releases slot) = f slot
held f p = 0

-- The weight of all slots, where `f` weighs one.
abbrev pub weight : (ℕ → ℕ) → Slots → ℕ
weight f s = sum_by f s.free_slots + sum_by (sum_by f) s.caches + sum_by (held f) s.points

abbrev pub IsBounded : Slots → Type 0
IsBounded s = (w : ℕ) (c : List ℕ) → get_elem? s.caches w ≡ some c → length c ≤ capacity

pub sum_by-refill :
    (f : ℕ → ℕ) (n : ℕ) (free cache : List ℕ)
    → let (free', cache') = refill n free cache in
      (sum_by f free' + sum_by f cache' ≡ sum_by f free + sum_by f cache)
      × (length cache' ≤ length cache + n)
unfolding refill
sum_by-refill f zero free cache = (refl, omega arith)
sum_by-refill f (suc n) [] cache = (refl, omega arith)
sum_by-refill f (suc n) (slot ∷ free) cache = omega (arith, sum_by-refill f n free (slot ∷ cache))

-- A cache is replaced by one that is no longer than its array.
pub IsBounded-set :
    (cs : List (List ℕ)) (w : ℕ) (new : List ℕ)
    → ((v : ℕ) (c : List ℕ) → get_elem? cs v ≡ some c → length c ≤ capacity)
    → length new ≤ capacity
    → (v : ℕ) (c : List ℕ) → get_elem? (set cs w new) v ≡ some c
    → length c ≤ capacity
IsBounded-set [] w new old fits v c e = old v c e
IsBounded-set (d ∷ cs) zero new old fits zero c e =
    subst (λ l. length l ≤ capacity) (some-injective _ _ e) fits
IsBounded-set (d ∷ cs) zero new old fits (suc v) c e = old (suc v) c e
IsBounded-set (d ∷ cs) (suc w) new old fits zero c e = old zero c e
IsBounded-set (d ∷ cs) (suc w) new old fits (suc v) c e =
    IsBounded-set cs w new (λ u. old (suc u)) fits v c e

-- From one state to the next: no slot comes or goes, and the caches fit.
pub record IsKept (f : ℕ → ℕ) (s s' : Slots) : Type 0 where
  pub same : weight f s' ≡ weight f s
  pub fits : IsBounded s → IsBounded s'

module _ (f : ℕ → ℕ) (s : Slots) (t : ℕ) where
  -- What a party's move and a new cache do to the sums.
  abbrev pub Moves : Point → Point → Type 0
  Moves p q = sum_by (held f) (set s.points t q) + held f p ≡ sum_by (held f) s.points + held f q

  pub moves : (p q : Point) → get_elem? s.points t ≡ some p → Moves p q
  moves p q e = sum_by-set (held f) s.points t p q e

  pub recached :
      (w : ℕ) (c d : List ℕ)
      → get_elem? s.caches w ≡ some c
      → sum_by (sum_by f) (set s.caches w d) + sum_by f c ≡ sum_by (sum_by f) s.caches + sum_by f d
  recached w c d e = sum_by-set (sum_by f) s.caches w c d e

  pub pop_shared-IsKept :
      (p next : Point) (free : List ℕ)
      → s.free_slots ≡ free
      → get_elem? s.points t ≡ some p
      → held f p ≡ 0
      → held f next ≡ 0
      → IsKept f s (pop_shared s t free next)
  pop_shared-IsKept p next [] same e empty on = record {
    same = omega (arith, moves p next e);
    fits = λ h. h;
  }
  pop_shared-IsKept p next (slot ∷ free) same e empty on = record {
    same = omega (arith, moves p (acquired slot) e, ap (sum_by f) same);
    fits = λ h. h;
  }

  pub take_newest-IsKept :
      (p next : Point) (w : ℕ) (cache : List ℕ)
      → get_elem? s.caches w ≡ some cache
      → get_elem? s.points t ≡ some p
      → held f p ≡ 0
      → held f next ≡ 0
      → IsKept f s (take_newest s t w cache next)
  take_newest-IsKept p next w [] at e empty on = record {
    same = omega (arith, moves p next e);
    fits = λ h. h;
  }
  take_newest-IsKept p next w (slot ∷ cache) at e empty on = record {
    same = omega (arith, moves p (acquired slot) e, recached w (slot ∷ cache) cache at);
    fits = λ h. IsBounded-set s.caches w cache h (omega (arith, h w (slot ∷ cache) at));
  }

  pub put_back-IsKept :
      (w : ℕ) (cache : List ℕ) (slot : ℕ)
      → get_elem? s.caches w ≡ some cache
      → get_elem? s.points t ≡ some (releases slot)
      → IsKept f s (put_back s t w cache slot)
  put_back-IsKept w cache slot at e =
      if-cases (IsKept f s) (length cache == capacity)
        (λ full. record {
          same = omega (
            arith,
            moves (releases slot) outside e,
            recached w cache (slot ∷ take batch cache) at,
            sum_by-append f s.free_slots (reverse (drop batch cache)),
            sum_by-reverse f (drop batch cache),
            sum_by-split f batch cache,
          );
          fits = λ h. IsBounded-set s.caches w _ h (omega (arith, length-take_le batch cache));
        })
        (λ room. record {
          same = omega (arith, moves (releases slot) outside e, recached w cache (slot ∷ cache) at);
          fits = λ h. IsBounded-set s.caches w _ h (ground (arith, h w cache at));
        })
