-- ===== src/Sync/Slots/Tests.antt =====
-- A ring of three slots, wrapped round its end.
use stackfull.Base.{ℕ, zero, suc, ◌+◌, ◌%◌, ◌<◌, ◌≡◌, refl, none, some, [], ◌∷◌, arith, get_elem?}
use stackfull.Sync.Slots.{Slots, push_locked, pop_locked}
use stackfull.Sync.Slots.Refine.{IsRing, filled}

abbrev wrapped : Slots ℕ
wrapped = record { capacity = 3; cells = none ∷ none ∷ some 8 ∷ []; head = 2; count = 1 }

wrapped-IsRing : IsRing wrapped (8 ∷ [])
wrapped-IsRing = record {
  positive = omega arith;
  small = omega arith;
  size = refl;
  head_in = omega arith;
  counted = refl;
  fits = omega arith;
  around = (refl, around);
}
  where
    around :
        (i : ℕ) → i < 3 → get_elem? wrapped.cells ((2 + i) % 3) ≡ get_elem? (filled (8 ∷ []) 2) i
    around zero h = refl
    around (suc zero) h = refl
    around (suc (suc zero)) h = refl
    around (suc (suc (suc i))) h = absurd (omega arith)

runs : (pop_locked (pop_locked (push_locked wrapped 9)).1).0 ≡ some 9
unfolding push_locked pop_locked
runs = refl
