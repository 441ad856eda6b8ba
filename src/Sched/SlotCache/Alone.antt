-- ===== src/Sched/SlotCache/Alone.antt =====
-- A search for a slot that nobody disturbs finds one if there is one.
use stackfull.Base.{
  ℕ, zero, suc, ◌+◌, ◌<◌, ◌≡◌, refl, sym, ap, subst, ◌∙◌, ◌≢◌, ◌⊎◌, inl, inr, true, Option, none,
  some, List, [], ◌∷◌, arith, if-cases, length, get_elem?, get_elem?-set, get_elem?-lt,
  get_elem?-none,
}
use native.Mathlib.Decide.{dec_lt}
use mathlib.Core.Option.{some-injective}
use stackfull.Sched.SlotCache.{
  Point, scans, last_pop, acquired, refused, Slots, refill, run_point, take_newest, pop_shared,
  is_own, at_point, go,
}

module _ (t : ℕ) (me : Option ℕ) where
  -- The next `n` steps of the party, while nobody else makes one.
  abbrev pub alone : Slots → ℕ → Slots
  alone s zero = s
  alone s (suc n) = alone (at_point s t (run_point s t me)) n

  abbrev pub Found : Slots → Type 0
  Found s = (slot : ℕ) × (get_elem? s.points t ≡ some (acquired slot))

  -- Nothing is free.
  abbrev pub IsDry : Slots → Type 0
  IsDry s =
      (get_elem? s.points t ≡ some refused)
      × (s.free_slots ≡ [])
      × ((v : ℕ) (c : List ℕ) → get_elem? s.caches v ≡ some c → c ≡ [])

  -- The shared list and the party's own cache are empty, and so are the caches before `w`.
  pub record Searched (s : Slots) (w : ℕ) : Type 0 where
    pub dry : s.free_slots ≡ []
    pub own : (v : ℕ) (c : List ℕ) → is_own me v ≡ true → get_elem? s.caches v ≡ some c → c ≡ []
    pub before : (v : ℕ) (c : List ℕ) → v < w → get_elem? s.caches v ≡ some c → c ≡ []

  step_lem :
      (s : Slots) (p : Point)
      → get_elem? s.points t ≡ some p
      → at_point s t (run_point s t me) ≡ run_point s t me p
  step_lem s p e = ap (λ o. elim o as (λ _. Slots) [ none ↦ s | some q ↦ run_point s t me q ]) e

  pub Found-stays : (s : Slots) (n : ℕ) → Found s → Found (alone s n)
  unfolding run_point
  Found-stays s zero h = h
  Found-stays s (suc n) (slot, e) =
      subst (λ u. Found (alone u n)) (sym (step_lem s (acquired slot) e))
        (Found-stays s n (slot, e))

  -- What one step from `p` leads to leads on.
  pub from_step :
      (s : Slots) (p : Point) (n : ℕ)
      → get_elem? s.points t ≡ some p
      → Found (alone (run_point s t me p) n) ⊎ IsDry (alone (run_point s t me p) n)
      → Found (alone s (suc n)) ⊎ IsDry (alone s (suc n))
  from_step s p n e h = subst (λ u. Found (alone u n) ⊎ IsDry (alone u n)) (sym (step_lem s p e)) h

  last_lem :
      (s : Slots)
      → get_elem? s.points t ≡ some last_pop
      → Searched s (length s.caches)
      → Found (alone s 1) ⊎ IsDry (alone s 1)
  unfolding run_point
  last_lem s e h = from_step s last_pop 0 e (popped s.free_slots h.dry)
    where
      popped :
          (free : List ℕ)
          → free ≡ []
          → Found (pop_shared s t free refused) ⊎ IsDry (pop_shared s t free refused)
      popped [] dry = inr (
        get_elem?-set s.points t last_pop refused e,
        h.dry,
        λ v c at. h.before v c (get_elem?-lt s.caches v c at) at,
      )
      popped (slot ∷ free) dry = inl (slot, get_elem?-set s.points t last_pop (acquired slot) e)

  -- The search after `n` more steps.
  abbrev Outcome : Slots → ℕ → Type 0
  Outcome s n = Found (alone s n) ⊎ IsDry (alone s n)

  -- One more cache is known to be empty.
  Searched-on :
      (s : Slots) (w : ℕ) (q : Point)
      → Searched s w
      → ((c : List ℕ) → get_elem? s.caches w ≡ some c → c ≡ [])
      → Searched (go s t q) (w + 1)
  Searched-on s w q h empty = record {
    dry = h.dry;
    own = h.own;
    before = λ v c lt at. elim (dec_lt v w) [
      | yes below ↦ h.before v c below at
      | no here ↦
          let same : v ≡ w = omega arith in
          empty c (subst (λ u. get_elem? s.caches u ≡ some c) same at)
    ];
  }

  -- The search goes on behind a cache that is empty.
  abbrev GoesOn : Slots → ℕ → ℕ → Type 0
  GoesOn s w k =
      ((c : List ℕ) → get_elem? s.caches w ≡ some c → c ≡ [])
      → Outcome (go s t (scans (w + 1))) (suc (suc k))

  pub scan_lem :
      (k : ℕ) (s : Slots) (w : ℕ)
      → get_elem? s.points t ≡ some (scans w)
      → Searched s w
      → ((v : ℕ) → is_own me v ≡ true → v < length s.caches)
      → w + k ≡ length s.caches
      → Outcome s (suc (suc k))
  unfolding run_point
  scan_lem zero s w e h exists end = from_step s (scans w) 1 e (
      if-cases (λ u. Outcome u 1) (is_own me w) (λ own. absurd (omega (arith, exists w own)))
        (λ other. at_end (get_elem? s.caches w) refl))
    where
      at_end :
          (o : Option (List ℕ))
          → get_elem? s.caches w ≡ o
          → Outcome
              (elim o as (λ _. Slots) [
                | none ↦ go s t last_pop
                | some c ↦ take_newest s t w c (scans (w + 1))
              ])
              1
      at_end (some c) at = absurd (omega (arith, get_elem?-lt s.caches w c at))
      at_end none at = last_lem (go s t last_pop) (get_elem?-set s.points t _ last_pop e) (record {
        dry = h.dry;
        own = h.own;
        before = λ v c lt found. h.before v c (omega arith) found;
      })
  scan_lem (suc k) s w e h exists end =
      let goes_on : GoesOn s w k = λ empty.
        scan_lem k (go s t (scans (w + 1))) (w + 1)
          (get_elem?-set s.points t (scans w) (scans (w + 1)) e)
          (Searched-on s w (scans (w + 1)) h empty) exists (omega (arith, end)) in
      from_step s (scans w) (suc (suc k)) e (
        if-cases (λ u. Outcome u (suc (suc k))) (is_own me w)
          (λ own. goes_on (λ c at. h.own w c own at))
          (λ other. at_one goes_on (get_elem? s.caches w) refl))
    where
      taken :
          GoesOn s w k
          → (c : List ℕ) → get_elem? s.caches w ≡ some c
          → Outcome (take_newest s t w c (scans (w + 1))) (suc (suc k))
      taken on [] at = on (λ c found. some-injective _ _ (sym found ∙ at))
      taken on (slot ∷ c) at = inl (
          Found-stays (take_newest s t w (slot ∷ c) (scans (w + 1))) (suc (suc k))
            (slot, get_elem?-set s.points t (scans w) (acquired slot) e))

      at_one :
          GoesOn s w k
          → (o : Option (List ℕ)) → get_elem? s.caches w ≡ o
          → Outcome
              (elim o as (λ _. Slots) [
                | none ↦ go s t last_pop
                | some c ↦ take_newest s t w c (scans (w + 1))
              ])
              (suc (suc k))
      at_one on none at = absurd (omega (arith, get_elem?-none s.caches w at))
      at_one on (some c) at = taken on c at

pub refill-nothing :
    (n : ℕ) (free cache : List ℕ)
    → (refill (suc n) free cache).1 ≡ []
    → (free ≡ []) × ((refill (suc n) free cache).0 ≡ [])
unfolding refill
refill-nothing n [] cache e = (refl, refl)
refill-nothing n (slot ∷ free) cache e = absurd (grows n free (slot ∷ cache) (omega arith) e)
  where
    grows : (n : ℕ) (free cache : List ℕ) → 0 < length cache → (refill n free cache).1 ≢ []
    grows zero free cache pos e = ground arith
    grows (suc n) [] cache pos e = ground arith
    grows (suc n) (slot ∷ free) cache pos e = grows n free (slot ∷ cache) (omega arith) e
