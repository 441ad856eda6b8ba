-- ===== src/Sched/SlotCache/Search.antt =====
-- The whole search, from the first look at one's own cache.
use stackfull.Base.{
  ℕ, zero, suc, ◌≡◌, refl, sym, ap, subst, ◌∙◌, ◌⊎◌, inl, Option, none, some, List, [], ◌∷◌, arith,
  ==_iff, length, get_elem?, set, length-set, get_elem?-set, get_elem?-lt,
}
use mathlib.Core.Option.{some-injective}
use stackfull.Sched.SlotCache.{
  batch, Point, refills, pops, scans, acquired, Slots, refill, run_point, take_own, take_newest,
  pop_shared, go,
}
use stackfull.Sched.SlotCache.Alone.{
  alone, Found, IsDry, from_step, scan_lem, Found-stays, refill-nothing,
}

-- A party on no worker begins at the shared list.
pops_lem :
    (t : ℕ) (s : Slots) (free : List ℕ)
    → s.free_slots ≡ free
    → get_elem? s.points t ≡ some pops
    → Found t none (alone t none (pop_shared s t free (scans 0)) (suc (suc (length s.caches))))
      ⊎ IsDry t none (alone t none (pop_shared s t free (scans 0)) (suc (suc (length s.caches))))
pops_lem t s (slot ∷ free) same e = inl (
    Found-stays t none (pop_shared s t (slot ∷ free) (scans 0)) (suc (suc (length s.caches)))
      (slot, get_elem?-set s.points t pops (acquired slot) e))
pops_lem t s [] same e =
    scan_lem t none (length s.caches) (go s t (scans 0)) 0
      (get_elem?-set s.points t pops (scans 0) e)
      (record { dry = same; own = λ v c own at. cc; before = λ v c lt at. absurd (omega arith) })
      (λ v own. absurd (ground arith)) (omega arith)

-- A cache that is no longer there.
emptied :
    (cs : List (List ℕ)) (w v : ℕ) (c : List ℕ)
    → w ≡ v
    → get_elem? (set cs w []) v ≡ some c
    → c ≡ []
emptied [] w v c same e = cc
emptied (d ∷ cs) zero zero c same e = some-injective _ _ (sym e)
emptied (d ∷ cs) zero (suc v) c same e = absurd (omega arith)
emptied (d ∷ cs) (suc w) zero c same e = absurd (omega arith)
emptied (d ∷ cs) (suc w) (suc v) c same e = emptied cs w v c (omega (arith, same)) e

module _ (t w : ℕ) (s : Slots) (e : get_elem? s.points t ≡ some refills) where
  -- The own cache, filled or not, and the search from there.
  abbrev Goal : Slots → Type 0
  Goal u =
      Found t (some w) (alone t (some w) u (suc (suc (length s.caches))))
      ⊎ IsDry t (some w) (alone t (some w) u (suc (suc (length s.caches))))

  filled_lem :
      (free cache : List ℕ)
      → get_elem? s.caches w ≡ some []
      → (refill batch s.free_slots []).0 ≡ free
      → (refill batch s.free_slots []).1 ≡ cache
      → Goal (
          take_newest
            (record s { free_slots = free; caches = set s.caches w cache })
            t
            w
            cache
            (scans 0))
  filled_lem free (slot ∷ cache) at same got = inl (
      Found-stays t (some w)
        (take_newest (record s { free_slots = free; caches = set s.caches w (slot ∷ cache) }) t w
          (slot ∷ cache) (scans 0))
        (suc (suc (length s.caches))) (slot, get_elem?-set s.points t refills (acquired slot) e))
  filled_lem free [] at same got =
      let (none_free, left) = refill-nothing 31 s.free_slots [] got in
      let in_place = get_elem?-lt s.caches w [] at in
      scan_lem t (some w) (length s.caches) _ 0 (get_elem?-set s.points t refills (scans 0) e)
        (record {
          dry = sym same ∙ left;
          own = λ v c own found. emptied s.caches w v c ((==_iff w v).0 own) found;
          before = λ v c lt found. absurd (omega arith);
        })
        (λ v own. let same_place = (==_iff w v).0 own in omega (arith, length-set s.caches w []))
        (omega (arith, length-set s.caches w []))

  own_lem : (c : List ℕ) → get_elem? s.caches w ≡ some c → Goal (take_own s t w c)
  own_lem (slot ∷ c) at = inl (
      Found-stays t (some w) (take_own s t w (slot ∷ c)) (suc (suc (length s.caches)))
        (slot, get_elem?-set s.points t refills (acquired slot) e))
  own_lem [] at = filled_lem _ _ at refl refl

-- Where a party begins to look: at its own cache when it is on a worker.
abbrev pub first_point : Option ℕ → Point
first_point none = pops
first_point (some w) = refills

-- The worker of a party has a cache.
abbrev pub HasCache : Slots → Option ℕ → Type 0
HasCache s none = Unit
HasCache s (some w) = (c : List ℕ) × (get_elem? s.caches w ≡ some c)

-- A party that has begun `tryAcquireSlot`, on a worker or on none, and is not disturbed: it has a slot
-- after three steps more than there are workers, or it is refused, and then no slot is in the shared
-- list nor in any cache.
pub search_finds :
    (t : ℕ) (me : Option ℕ) (s : Slots)
    → get_elem? s.points t ≡ some (first_point me)
    → HasCache s me
    → Found t me (alone t me s (suc (suc (suc (length s.caches)))))
      ⊎ IsDry t me (alone t me s (suc (suc (suc (length s.caches)))))
unfolding run_point
search_finds t none s e has =
    from_step t none s pops (suc (suc (length s.caches))) e (pops_lem t s s.free_slots refl e)
search_finds t (some w) s e (c, at) =
    from_step t (some w) s refills (suc (suc (length s.caches))) e (
      subst (Goal t w s e)
        (sym (ap (λ o. elim o as (λ _. Slots) [ none ↦ s | some d ↦ take_own s t w d ]) at))
        (own_lem t w s e c at))
