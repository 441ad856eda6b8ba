-- ===== src/Stack/Mmap/Single.antt =====
-- One stack: what an allocation maps, and that its deallocation unmaps just that.
use stackfull.Base.{
  ℕ, ◌+◌, ◌-◌, ◌^◌, ◌≤◌, ◌<◌, ◌≡◌, refl, sym, ap₂, subst, ◌∙◌, ◌⊎◌, inl, inr, true, false, ◌||◌,
  Option, none, some, arith, ltb, ◌==◌, ne→==, Bool-cases, if-cases,
}
use stackfull.Stack.Mmap.{
  round_up_to_page, slot_size, Space, Kernel, Allocation, allocated, invalid_argument, os_error,
  in_range, map_range, unmap, guarded, cannot_honour, finish, allocate, deallocate, max_size,
}
use native.Mathlib.Nat.{mod-eq_of_lt}
use stackfull.Sync.Slots.{add_size}
use stackfull.Stack.Pool.{StackView}
use stackfull.Stack.Mmap.Arith.{round_up_lem}

-- What the system promises of `mmap`: a range that was free, inside the address space and not at
-- the null address.
pub record IsFair (k : Kernel) : Type 0 where
  pub inside :
      (space : Space) (size start : ℕ)
      → k.place space size ≡ some start
      → (0 < start) × (start + size ≤ 2 ^ 64)
  pub free :
      (space : Space) (size start x : ℕ)
      → k.place space size ≡ some start
      → in_range start size x ≡ true
      → space x ≡ false

-- Two spaces with the same mapped bytes.
abbrev pub Same : Space → Space → Type 0
Same s s' = (x : ℕ) → s x ≡ s' x

pub unmap-map_range :
    (space : Space) (start size : ℕ)
    → ((x : ℕ) → in_range start size x ≡ true → space x ≡ false)
    → Same (unmap (map_range space start size) start size) space
unmap-map_range space start size free x = elim (Bool-cases (in_range start size x)) [
  | inl inside ↦ rw inside (sym (free x inside))
  | inr outside ↦ rw outside refl
]

-- What an allocation of `size` bytes leaves. A stack has the bytes that were asked for, with its
-- guard below it, and just these bytes are mapped that were not; an error maps nothing.
abbrev pub IsAllocated : ℕ → Space → ℕ → Allocation → Space → Type 0
IsAllocated guard space size (allocated v) space' =
    (size ≤ v.size)
    × (guard < v.base)
    × (v.base + v.size ≤ 2 ^ 64)
    × (v.size + guard < 2 ^ 64)
    × Same space' (map_range space (v.base - guard) (v.size + guard))
    × ((x : ℕ) → in_range (v.base - guard) (v.size + guard) x ≡ true → space x ≡ false)
IsAllocated guard space size invalid_argument space' = Same space' space
IsAllocated guard space size os_error space' = Same space' space

pub honoured :
    (page guard size : ℕ)
    → 0 < page
    → page < 2 ^ 64
    → guard < 2 ^ 64
    → size < 2 ^ 64
    → cannot_honour page guard size ≡ false
    → (0 < round_up_to_page size page)
      × (size ≤ round_up_to_page size page)
      × (round_up_to_page size page + guard < 2 ^ 64)
honoured page guard size some_page small_page small_guard small fine =
    within (round_up_to_page size page) (round_up_lem size page some_page small small_page) fine
  where
    within :
        (n : ℕ)
        → (n ≡ 0) ⊎ (size ≤ n)
        → n == 0 || ltb (max_size - guard) n ≡ false
        → (0 < n) × (size ≤ n) × (n + guard < 2 ^ 64)
    within n covers fine = ground arith

module _ (k : Kernel) (page guard : ℕ) (fair : IsFair k) (some_page : 0 < page)
    (small_page : page < 2 ^ 64) (small_guard : guard < 2 ^ 64) where
  finish-IsAllocated :
      (space : Space) (size : ℕ) (o : Option ℕ)
      → size < 2 ^ 64
      → cannot_honour page guard size ≡ false
      → k.place space (slot_size page guard size) ≡ o
      → let (r, space') = finish k page guard space size o in IsAllocated guard space size r space'
  finish-IsAllocated space size none small fine placed = λ x. refl
  finish-IsAllocated space size (some start) small fine placed =
      let (pos, covers, fits) =
        honoured page guard size some_page small_page small_guard small fine in
      let total = slot_size page guard size in
      let whole : total ≡ round_up_to_page size page + guard = mod-eq_of_lt fits in
      let (above, below) = fair.inside space total start placed in
      let free = λ (x : ℕ). fair.free space total start x placed in
      let base : start + guard - guard ≡ start = omega arith in
      if-cases (λ (r : Allocation × Space). IsAllocated guard space size r.0 r.1)
        (guarded k page guard start)
        (λ _. (
          covers,
          omega arith,
          omega arith,
          fits,
          λ x. ap₂ (λ s n. in_range s n x || space x) (sym base) whole,
          λ x h. free x (ap₂ (λ s n. in_range s n x) (sym base) whole ∙ h),
        ))
        (λ _. unmap-map_range space start total free)

  -- In a system that places mappings in free memory, with pages that are not empty, and pages and
  -- guards of fewer than 2^64 bytes, an allocation of fewer than 2^64 bytes gives a stack of at
  -- least that size above its guard and maps just these bytes, which were free, or fails and maps
  -- nothing.
  pub allocate-IsAllocated :
      (space : Space) (size : ℕ)
      → size < 2 ^ 64
      → let (r, space') = allocate k page guard space size in IsAllocated guard space size r space'
  unfolding allocate
  allocate-IsAllocated space size small =
      if-cases (λ (r : Allocation × Space). IsAllocated guard space size r.0 r.1)
        (cannot_honour page guard size) (λ _ x. refl)
        (λ fine. finish-IsAllocated space size _ small fine refl)

  -- In such a system, deallocating an allocated stack leaves mapped just what was mapped before.
  pub deallocate-allocate :
      (space space' : Space) (size : ℕ) (v : StackView)
      → size < 2 ^ 64
      → allocate k page guard space size ≡ (allocated v, space')
      → Same (deallocate guard space' v) space
  unfolding deallocate
  deallocate-allocate space space' size v small e =
      let (covers, above, below, fits, same, free) : IsAllocated guard space size (allocated v)
          space' =
        subst (λ (r : Allocation × Space). IsAllocated guard space size r.0 r.1) e
          (allocate-IsAllocated space size small) in
      let whole : add_size v.size guard ≡ v.size + guard = mod-eq_of_lt fits in
      λ x.
        rw (ne→== v.base 0 (omega arith), whole, same x)
          (unmap-map_range space (v.base - guard) (v.size + guard) free x)
