-- ===== src/Sync/Slots.antt =====
-- The ring of raw slots that sync/include/stackfull/sync/Channel.h and Stream.h both keep: an array
-- of `capacity` slots, of which `count` from `head` on hold a value.
pub mod Around
pub mod Refine
mod Tests
use stackfull.Base.{ℕ, ◌+◌, ◌-◌, ◌%◌, ◌^◌, Option, none, some, List, get_elem?, set, replicate}

-- A raw slot holds a value or nothing.
pub record Slots {ℓ} (A : Type ℓ) : Type ℓ where
  pub capacity : ℕ
  pub cells : List (Option A)
  pub head : ℕ
  pub count : ℕ

-- `std::size_t` addition.
abbrev pub add_size : ℕ → ℕ → ℕ
add_size a b = (a + b) % 2 ^ 64

module _ {ℓ} {A : Type ℓ} where
  -- The value in slot `i`: `none` where the slot is raw, or out of range.
  abbrev pub load : List (Option A) → ℕ → Option A
  load cells i = elim (get_elem? cells i) [ none ↦ none | some o ↦ o ]

  -- The slot that the next value is built in.
  abbrev pub free_slot : Slots A → ℕ
  free_slot r = add_size r.head r.count % r.capacity

  pub push_locked : Slots A → A → Slots A
  push_locked r v = record r {
    cells = set r.cells (free_slot r) (some v);
    count = add_size r.count 1;
  }

  -- The value is moved out and its slot destroyed. Called only where `count ≢ 0`.
  pub pop_locked : Slots A → Option A × Slots A
  pop_locked r = (
    load r.cells r.head,
    record r {
      cells = set r.cells r.head none;
      head = add_size r.head 1 % r.capacity;
      count = r.count - 1;
    },
  )

  -- The array as it is allocated.
  unfoldable pub raw : ℕ → Slots A
  raw n = record { capacity = n; cells = replicate n none; head = 0; count = 0 }
