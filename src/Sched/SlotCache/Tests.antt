-- ===== src/Sched/SlotCache/Tests.antt =====
-- Runs of two workers and a foreign thread, and the theorems at them.
use stackfull.Base.{
  ℕ, zero, suc, ◌≡◌, refl, ◌⊎◌, Option, none, some, List, [], ◌∷◌, arith, get_elem?,
}
use stackfull.Sched.SlotCache.{
  Event, acquires, releases_slot, runs, history, advance, run_point, refill, outside, acquired,
  refills, Slots,
}
use stackfull.Sched.SlotCache.Sections.{weight, IsBounded}
use stackfull.Sched.SlotCache.Conserve.{slots_conserved}
use stackfull.Sched.SlotCache.Search.{search_finds}
use stackfull.Sched.SlotCache.Alone.{alone, Found, IsDry}

-- Parties 0 and 1 are on workers 0 and 1, party 2 is on none.
abbrev worker_of : ℕ → Option ℕ
worker_of zero = some 0
worker_of (suc zero) = some 1
worker_of t = none

abbrev three_slots : Slots
three_slots = record {
  free_slots = 5 ∷ 6 ∷ 7 ∷ [];
  caches = [] ∷ [] ∷ [];
  points = outside ∷ outside ∷ outside ∷ [];
}

-- Party 0 fills its cache and takes a slot, and party 2 takes one out of that cache.
abbrev takes_from_peer : List Event
takes_from_peer = acquires 0 ∷ runs 0 ∷ acquires 2 ∷ runs 2 ∷ runs 2 ∷ releases_slot 0 ∷ runs 0 ∷ []

foreign_has_slot :
    get_elem? (history worker_of three_slots takes_from_peer).points 2 ≡ some (acquired 6)
unfolding history advance run_point refill
foreign_has_slot = refl

three_slots-IsBounded : IsBounded three_slots
three_slots-IsBounded w c e = ground arith

slots_conserved_example :
    ((f : ℕ → ℕ) → weight f (history worker_of three_slots takes_from_peer) ≡ weight f three_slots)
    × IsBounded (history worker_of three_slots takes_from_peer)
slots_conserved_example =
    slots_conserved worker_of three_slots takes_from_peer three_slots-IsBounded

-- Worker 1 has no slot, worker 0 has the only one.
abbrev one_slot : Slots
one_slot = record { free_slots = []; caches = (9 ∷ []) ∷ [] ∷ []; points = outside ∷ refills ∷ [] }

search_finds_example :
    Found 1 (some 1) (alone 1 (some 1) one_slot 5) ⊎ IsDry 1 (some 1) (alone 1 (some 1) one_slot 5)
search_finds_example = search_finds 1 (some 1) one_slot refl ([], refl)
