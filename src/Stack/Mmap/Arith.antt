-- ===== src/Stack/Mmap/Arith.antt =====
-- The sizes that the allocator computes.
use stackfull.Base.{
  ℕ, ◌+◌, ◌-◌, ◌%◌, ◌^◌, ◌≤◌, ◌<◌, ◌≡◌, ◌⊎◌, inl, inr, true, arith, ltb, ltb→lt, Bool-cases,
  ltb-false→le,
}
use native.Mathlib.Nat.{mod-eq_of_lt, lt-div-mul-add, div-eq_of_lt, zero-mul}
use stackfull.Stack.Mmap.{round_up_to_page, in_range}

-- Rounding up covers the size, unless the sum wraps around; then it gives 0.
pub round_up_lem :
    (bytes page : ℕ)
    → 0 < page
    → bytes < 2 ^ 64
    → page < 2 ^ 64
    → (round_up_to_page bytes page ≡ 0) ⊎ (bytes ≤ round_up_to_page bytes page)
round_up_lem bytes page pos small small_page = elim (Bool-cases (ltb (bytes + page - 1) (2 ^ 64))) [
  | inl fits ↦ inr (
      let same = mod-eq_of_lt {n = bytes + page - 1} {m = 2 ^ 64} (ltb→lt _ _ fits) in
      let over = lt-div-mul-add {a = bytes + page - 1} {b = page} pos in rw same (omega arith))
  | inr wraps ↦ inl (
      let past = ltb-false→le _ _ wraps in
      let below : (bytes + page - 1) % 2 ^ 64 < page = omega arith in
      rw (div-eq_of_lt below) (zero-mul page))
]

-- The range of an address, as an order.
pub in_range-true :
    (start size x : ℕ) → in_range start size x ≡ true → (start ≤ x) × (x < start + size)
in_range-true start size x h = ground arith

pub in_range_true : (start size x : ℕ) → start ≤ x → x < start + size → in_range start size x ≡ true
in_range_true start size x lo hi = ground arith
