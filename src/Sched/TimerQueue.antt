-- ===== src/Sched/TimerQueue.antt =====
-- sched/src/TimerQueue.cpp and include/stackfull/sched/detail/TimerQueue.h: the binary heap of
-- pending deadlines. An entry is the number of its address, and each field of `TimerEntry` is a
-- function of it; a deadline is its count of ticks. Each function is what one critical section
-- does.
pub mod Order
mod Sift
mod Down
mod Insert
mod Calls
mod Fire
mod Close
mod Tests
use stackfull.Base.{
  ℕ, zero, suc, ◌+◌, ◌-◌, ◌*◌, ◌^◌, Bool, true, false, not, ◌&&◌, ◌||◌, List, [], ◌∷◌, ltb, ◌==◌,
  if◌then◌else◌,
}
use stackfull.Sync.Slots.{add_size}
use stackfull.Sched.TimerQueue.Order.{parent, swapped}

abbrev pub not_queued : ℕ
not_queued = 2 ^ 64 - 1

abbrev pub no_deadline : ℕ
no_deadline = 2 ^ 63 - 1

-- One assignment to a field of an entry, or to a place of the vector.
abbrev pub write {ℓ} : {A : Type ℓ} → (ℕ → A) → ℕ → A → ℕ → A
write f a v i = if i == a then v else f i

-- The vector of entries, of which the first `size` count, and the `heapIndex` of each entry.
pub record Heap : Type 0 where
  pub at : ℕ → ℕ
  pub size : ℕ
  pub heap_index : ℕ → ℕ

pub record TimerQueue : Type 0 where
  pub heap : Heap
  pub deadline : ℕ → ℕ
  pub has_callback : ℕ → Bool
  pub fired : ℕ → Bool
  pub cancelled : ℕ → Bool
  pub is_closed : Bool
  -- The mirrors that are read without the lock, and this queue's bit of the mask.
  pub size : ℕ
  pub earliest : ℕ
  pub is_active : Bool

abbrev pub swap_at : Heap → ℕ → ℕ → Heap
swap_at h a b =
    let at = swapped h.at a b in
    record h { at = at; heap_index = write (write h.heap_index (at a) a) (at b) b }

-- `pop_back`, and the entry's `heapIndex`.
abbrev pub drop_last : Heap → ℕ → Heap
drop_last h e = record h { size = h.size - 1; heap_index = write h.heap_index e not_queued }

module _ (deadline : ℕ → ℕ) where
  -- The deadline of the entry at an index.
  abbrev pub key : Heap → ℕ → ℕ
  key h i = deadline (h.at i)

  -- The loops, on fuel: `sift_up` climbs at most `index` times, `sift_down` goes down at most
  -- `size` times.
  unfoldable pub sift_up : ℕ → ℕ → Heap → Heap
  sift_up zero i h = h
  sift_up (suc fuel) i h =
      let rest = sift_up fuel (parent i) (swap_at h i (parent i)) in
      if i == 0 then h else if ltb (key h i) (key h (parent i)) then rest else h

  abbrev pub smaller : Heap → ℕ → ℕ → ℕ
  smaller h child smallest =
      if ltb child h.size && ltb (key h child) (key h smallest) then child else smallest

  abbrev pub smallest : Heap → ℕ → ℕ
  smallest h i = smaller h (2 * i + 2) (smaller h (2 * i + 1) i)

  unfoldable pub sift_down : ℕ → ℕ → Heap → Heap
  sift_down zero i h = h
  sift_down (suc fuel) i h =
      let rest = sift_down fuel (smallest h i) (swap_at h i (smallest h i)) in
      if smallest h i == i then h else rest

  -- `push_back` of an entry, with its `heapIndex`, and the sift that follows.
  abbrev pub insert : Heap → ℕ → Heap
  insert h e = sift_up h.size h.size (record {
    at = write h.at h.size e;
    size = add_size h.size 1;
    heap_index = write h.heap_index e h.size;
  })

  abbrev pub remove_at : Heap → ℕ → Heap
  remove_at h i =
      if i == h.size - 1
      then drop_last h (h.at i)
      else sift_up i i (sift_down h.size i (drop_last (swap_at h i (h.size - 1)) (h.at i)))

abbrev pub publish_locked : TimerQueue → TimerQueue
publish_locked q = record q {
  size = q.heap.size;
  earliest = if q.heap.size == 0 then no_deadline else key q.deadline q.heap 0;
  is_active =
      if q.size == 0 && not (q.heap.size == 0)
      then true
      else if not (q.size == 0) && q.heap.size == 0
      then false
      else q.is_active;
}

abbrev pub enqueue : TimerQueue → ℕ → TimerQueue
enqueue q e =
    publish_locked (record q { fired = write q.fired e false; heap = insert q.deadline q.heap e })

-- Whether the entry became the earliest.
pub add : TimerQueue → ℕ → Bool × TimerQueue
add q e = ((enqueue q e).heap.at 0 == e, enqueue q e)

pub add_unless_cancelled : TimerQueue → ℕ → Bool × TimerQueue
add_unless_cancelled q e = if q.cancelled e || q.is_closed then (false, q) else (true, enqueue q e)

abbrev pub remove_locked : TimerQueue → ℕ → TimerQueue
remove_locked q i = publish_locked (record q { heap = remove_at q.deadline q.heap i })

pub cancel : TimerQueue → ℕ → Bool × TimerQueue
cancel q e =
    if q.heap.heap_index e == not_queued
    then (false, record q { cancelled = write q.cancelled e true })
    else (true, remove_locked q (q.heap.heap_index e))

-- The removal of an entry that fires, with the mark that it fired.
abbrev pub fire_at : TimerQueue → ℕ → TimerQueue
fire_at q i = let q' = remove_locked q i in record q' { fired = write q'.fired (q.heap.at i) true }

-- `fireExpired` with no other call between its rounds: the entries that are woken or called back,
-- in order. Each round but the last takes one entry, so `size` rounds are enough.
unfoldable pub fire_rounds : ℕ → TimerQueue → ℕ → List ℕ × TimerQueue
fire_rounds zero q now = ([], q)
fire_rounds (suc fuel) q now =
    let (rest, q') = fire_rounds fuel (fire_at q 0) now in
    if q.heap.size == 0 || ltb now (key q.deadline q.heap 0)
    then ([], q)
    else (q.heap.at 0 ∷ rest, q')

pub fire_expired : TimerQueue → ℕ → List ℕ × TimerQueue
fire_expired q now = fire_rounds q.heap.size q now

-- The inner loop of `fireCallbacksAndClose`: the first index from `i` on with a callback.
unfoldable pub find_callback : ℕ → TimerQueue → ℕ → ℕ
find_callback zero q i = i
find_callback (suc fuel) q i =
    let rest = find_callback fuel q (i + 1) in
    if ltb i q.heap.size && not (q.has_callback (q.heap.at i)) then rest else i

unfoldable pub callback_rounds : ℕ → TimerQueue → List ℕ × TimerQueue
callback_rounds zero q = ([], record q { is_closed = true })
callback_rounds (suc fuel) q =
    let index = find_callback q.heap.size q 0 in
    let (rest, q') = callback_rounds fuel (fire_at (record q { is_closed = true }) index) in
    if index == q.heap.size
    then ([], record q { is_closed = true })
    else (q.heap.at index ∷ rest, q')

pub fire_callbacks_and_close : TimerQueue → List ℕ × TimerQueue
fire_callbacks_and_close q = callback_rounds q.heap.size q
