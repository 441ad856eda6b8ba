-- ===== src/Stack/Mmap.antt =====
-- stack/src/MmapStackAllocator.cpp: stacks from the operating system, each above its guard pages.
-- What the process has mapped is a Boolean function of the address; the kernel's choices are
-- parameters.
mod Arith
mod Single
mod Many
mod Tests
use stackfull.Base.{
  ℕ, zero, suc, ◌+◌, ◌-◌, ◌*◌, ◌/◌, ◌%◌, ◌^◌, Bool, not, ◌&&◌, ◌||◌, Option, none, some, List, [],
  ◌∷◌, ltb, leb, ◌==◌, if◌then◌else◌,
}
use stackfull.Sync.Slots.{add_size}
use stackfull.Stack.Pool.{StackView}

-- `std::size_t` multiplication.
abbrev pub mul_size : ℕ → ℕ → ℕ
mul_size a b = a * b % 2 ^ 64

abbrev pub max_size : ℕ
max_size = 2 ^ 64 - 1

-- `bytes + page - 1` wraps around; `page` is not 0.
abbrev pub round_up_to_page : ℕ → ℕ → ℕ
round_up_to_page bytes page = (bytes + page - 1) % 2 ^ 64 / page * page

abbrev pub in_range : ℕ → ℕ → ℕ → Bool
in_range start size x = leb start x && ltb x (start + size)

abbrev pub Space : Type 0
Space = ℕ → Bool

abbrev pub map_range : Space → ℕ → ℕ → Space
map_range space start size x = in_range start size x || space x

abbrev pub unmap : Space → ℕ → ℕ → Space
unmap space start size x = not (in_range start size x) && space x

-- The kernel: where `mmap` puts that many bytes, if it can, and whether `mprotect` succeeds there.
pub record Kernel : Type 0 where
  pub place : Space → ℕ → Option ℕ
  pub protects : ℕ → ℕ → Bool

pub data Allocation : Type 0 where
  allocated : StackView → Allocation
  invalid_argument os_error : Allocation

-- `options.guardPages * page`, which the code computes in each call.
abbrev pub guard_bytes : ℕ → ℕ → ℕ
guard_bytes guard_pages page = mul_size guard_pages page

-- The check that `allocate` and `allocateMany` share, with guards of `guard` bytes.
abbrev pub cannot_honour : ℕ → ℕ → ℕ → Bool
cannot_honour page guard size =
    let usable = round_up_to_page size page in usable == 0 || ltb (max_size - guard) usable

abbrev pub slot_size : ℕ → ℕ → ℕ → ℕ
slot_size page guard size = add_size (round_up_to_page size page) guard

abbrev pub view_at : ℕ → ℕ → ℕ → ℕ → StackView
view_at page guard start size = record { base = start + guard; size = round_up_to_page size page }

module _ (k : Kernel) (page guard : ℕ) where
  -- The guard pages of a mapping: nothing to do, or `mprotect`.
  abbrev pub guarded : ℕ → Bool
  guarded start = guard == 0 || k.protects start guard

  -- From the answer of `mmap` on.
  abbrev pub finish : Space → ℕ → Option ℕ → Allocation × Space
  finish space size none = (os_error, space)
  finish space size (some start) =
      let total = slot_size page guard size in
      if guarded start
      then (allocated (view_at page guard start size), map_range space start total)
      else (os_error, unmap (map_range space start total) start total)

  pub allocate : Space → ℕ → Allocation × Space
  allocate space size =
      if cannot_honour page guard size
      then (invalid_argument, space)
      else finish space size (k.place space (slot_size page guard size))

  -- The loop of `allocateMany`, with so many slots left after those that are done: the stacks, and
  -- what is mapped.
  unfoldable pub carve : Space → ℕ → ℕ → ℕ → ℕ → List StackView × Space
  carve space mapping size zero done = ([], space)
  carve space mapping size (suc left) done =
      let slot = slot_size page guard size in
      let start = mapping + mul_size done slot in
      let (views, space') = carve space mapping size left (done + 1) in
      if guarded start
      then (view_at page guard start size ∷ views, space')
      else ([], unmap space start (mul_size (suc left) slot))

  abbrev pub carve_from : Space → ℕ → ℕ → Option ℕ → List StackView × Space
  carve_from space size count none = ([], space)
  carve_from space size count (some mapping) =
      let slot = slot_size page guard size in
      carve (map_range space mapping (mul_size slot count)) mapping size count 0

  pub allocate_many : Space → ℕ → ℕ → List StackView × Space
  allocate_many space size count =
      let slot = slot_size page guard size in
      if count == 0 || cannot_honour page guard size
      then ([], space)
      else if ltb (max_size / count) slot
      then ([], space)
      else carve_from space size count (k.place space (mul_size slot count))

pub deallocate : ℕ → Space → StackView → Space
deallocate guard space stack =
    if stack.base == 0 then space else unmap space (stack.base - guard) (add_size stack.size guard)
