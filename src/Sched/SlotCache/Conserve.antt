-- ===== src/Sched/SlotCache/Conserve.antt =====
-- No slot is lost or doubled, and no cache is longer than its array.
use stackfull.Base.{
  ℕ, ◌+◌, ◌≡◌, refl, ◌∙◌, Option, none, some, List, [], ◌∷◌, arith, if-cases, get_elem?, set,
  get_elem?-set, sum_by-append,
}
use stackfull.Sched.SlotCache.{
  batch, Point, outside, refills, pops, scans, last_pop, acquired, refused, releases, Slots, refill,
  run_point, take_own, at_cache, is_own, begin, begin_release, at_point, Event, acquires,
  releases_slot, runs, advance, history, go,
}
use stackfull.Sched.SlotCache.Sections.{
  sum_by-refill, IsBounded-set, moves, recached, pop_shared-IsKept, take_newest-IsKept,
  put_back-IsKept, IsKept, held, weight, IsBounded,
}

module _ (f : ℕ → ℕ) where
  trans : {a b c : Slots} → IsKept f a b → IsKept f b c → IsKept f a c
  trans h k = record { same = k.same ∙ h.same; fits = λ fit. k.fits (h.fits fit) }

  take_own-IsKept :
      (s : Slots) (t w : ℕ) (cache : List ℕ)
      → get_elem? s.caches w ≡ some cache
      → get_elem? s.points t ≡ some refills
      → IsKept f s (take_own s t w cache)
  take_own-IsKept s t w (slot ∷ cache) at e =
      take_newest-IsKept f s t refills (scans 0) w (slot ∷ cache) at e refl refl
  take_own-IsKept s t w [] at e =
      let (free, cache) = refill batch s.free_slots [] in
      let filled = sum_by-refill f batch s.free_slots [] in
      let full = record s { free_slots = free; caches = set s.caches w cache } in
      trans {b = full}
        (record {
          same = omega (arith, filled.0, recached f s t w [] cache at);
          fits = λ h. IsBounded-set s.caches w cache h (omega (arith, filled.1));
        })
        (take_newest-IsKept f full t refills (scans 0) w cache
          (get_elem?-set s.caches w [] cache at) e refl refl)

  -- A move of a party that has the same slot before and after, or none.
  moves_on :
      (s : Slots) (t : ℕ) (p q : Point)
      → get_elem? s.points t ≡ some p
      → held f p ≡ held f q
      → IsKept f s (go s t q)
  moves_on s t p q e eq = record { same = omega (arith, moves f s t p q e); fits = λ h. h }

  at_cache-IsKept :
      (s : Slots) (w : ℕ) (section : List ℕ → Slots) (otherwise : Slots)
      → ((c : List ℕ) → get_elem? s.caches w ≡ some c → IsKept f s (section c))
      → IsKept f s otherwise
      → IsKept f s (at_cache s w section otherwise)
  at_cache-IsKept s w section otherwise has has_not = found (get_elem? s.caches w) refl
    where
      found :
          (o : Option (List ℕ))
          → get_elem? s.caches w ≡ o
          → IsKept f s (elim o [ none ↦ otherwise | some c ↦ section c ])
      found none e = has_not
      found (some c) e = has c e

  stays : (s : Slots) → IsKept f s s
  stays s = record { same = refl; fits = λ h. h }

  run_point-IsKept :
      (s : Slots) (t : ℕ) (me : Option ℕ) (p : Point)
      → get_elem? s.points t ≡ some p
      → IsKept f s (run_point s t me p)
  unfolding run_point
  run_point-IsKept s t me outside e = stays s
  run_point-IsKept s t me (acquired slot) e = stays s
  run_point-IsKept s t me refused e = stays s
  run_point-IsKept s t none refills e = moves_on s t refills pops e refl
  run_point-IsKept s t (some w) refills e =
      at_cache-IsKept s w _ s (λ c at. take_own-IsKept s t w c at e) (stays s)
  run_point-IsKept s t me pops e =
      pop_shared-IsKept f s t pops (scans 0) s.free_slots refl e refl refl
  run_point-IsKept s t me (scans w) e =
      if-cases (IsKept f s) (is_own me w) (λ own. moves_on s t (scans w) (scans (w + 1)) e refl)
        (λ other.
          at_cache-IsKept s w _ _
            (λ c at. take_newest-IsKept f s t (scans w) (scans (w + 1)) w c at e refl refl)
            (moves_on s t (scans w) last_pop e refl))
  run_point-IsKept s t me last_pop e =
      pop_shared-IsKept f s t last_pop refused s.free_slots refl e refl refl
  run_point-IsKept s t none (releases slot) e = record {
    same =
        omega
          (arith, moves f s t (releases slot) outside e, sum_by-append f s.free_slots (slot ∷ []));
    fits = λ h. h;
  }
  run_point-IsKept s t (some w) (releases slot) e =
      at_cache-IsKept s w _ s (λ c at. put_back-IsKept f s t w c slot at e) (stays s)

  begin-IsKept :
      (s : Slots) (t : ℕ) (me : Option ℕ) (p : Point)
      → get_elem? s.points t ≡ some p
      → IsKept f s (begin s t me p)
  begin-IsKept s t none outside e = moves_on s t outside pops e refl
  begin-IsKept s t (some w) outside e = moves_on s t outside refills e refl
  begin-IsKept s t none refused e = moves_on s t refused pops e refl
  begin-IsKept s t (some w) refused e = moves_on s t refused refills e refl
  begin-IsKept s t me p e = stays s

  begin_release-IsKept :
      (s : Slots) (t : ℕ) (p : Point)
      → get_elem? s.points t ≡ some p
      → IsKept f s (begin_release s t p)
  begin_release-IsKept s t (acquired slot) e = moves_on s t (acquired slot) (releases slot) e refl
  begin_release-IsKept s t p e = stays s

  at_point-IsKept :
      (s : Slots) (t : ℕ) (step : Point → Slots)
      → ((p : Point) → get_elem? s.points t ≡ some p → IsKept f s (step p))
      → IsKept f s (at_point s t step)
  at_point-IsKept s t step keeps = found (get_elem? s.points t) refl
    where
      found :
          (o : Option Point)
          → get_elem? s.points t ≡ o
          → IsKept f s (elim o [ none ↦ s | some p ↦ step p ])
      found none e = stays s
      found (some p) e = keeps p e

  advance-IsKept :
      (worker_of : ℕ → Option ℕ) (s : Slots) (e : Event) → IsKept f s (advance worker_of s e)
  unfolding advance
  advance-IsKept worker_of s (acquires t) = at_point-IsKept s t _ (begin-IsKept s t (worker_of t))
  advance-IsKept worker_of s (releases_slot t) = at_point-IsKept s t _ (begin_release-IsKept s t)
  advance-IsKept worker_of s (runs t) = at_point-IsKept s t _ (run_point-IsKept s t (worker_of t))

  history-IsKept :
      (worker_of : ℕ → Option ℕ) (s : Slots) (es : List Event) → IsKept f s (history worker_of s es)
  unfolding history
  history-IsKept worker_of s [] = stays s
  history-IsKept worker_of s (e ∷ es) =
      trans (advance-IsKept worker_of s e) (history-IsKept worker_of (advance worker_of s e) es)

-- Whatever any number of parties, on whatever workers or on none, acquire and release, in whatever
-- order: however the slots are weighed, those in the shared list, in the caches and with a party
-- weigh what they weighed before, so none is lost and none is given out twice; and when no cache was
-- longer than its array, none is.
pub slots_conserved :
    (worker_of : ℕ → Option ℕ) (s : Slots) (es : List Event)
    → IsBounded s
    → ((f : ℕ → ℕ) → weight f (history worker_of s es) ≡ weight f s)
      × IsBounded (history worker_of s es)
slots_conserved worker_of s es fits = (
  λ f. (history-IsKept f worker_of s es).same,
  (history-IsKept (λ _. 0) worker_of s es).fits fits,
)
