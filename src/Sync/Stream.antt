-- ===== src/Sync/Stream.antt =====
-- sync/include/stackfull/sync/Stream.h: the bounded stream to one consumer that waits. Each critical
-- section is one function; a `Waker` is the number of the task or callback that it wakes, and the
-- waker that a call fires is part of its result.
mod Order
mod Account
mod Push
mod History
mod Tests
use stackfull.Base.{
  ℕ, Bool, true, false, not, ◌&&◌, ◌||◌, Option, none, some, leb, ◌==◌, if◌then◌else◌,
}
use stackfull.Sync.Slots.{Slots, push_locked, pop_locked, raw, add_size}
use stackfull.Sync.Channel.{
  TransferResult, done, closed, would_block, enqueued, cancelled, Callback,
}

pub data Overflow : Type 0 where
  drop_oldest drop_newest : Overflow

pub record Stream {ℓ} (A : Type ℓ) : Type ℓ where
  pub ring : Slots A
  pub policy : Overflow
  pub is_closed : Bool
  pub consumer : Option ℕ
  pub dropped : ℕ

abbrev pub refuses : Overflow → Bool
refuses drop_oldest = false
refuses drop_newest = true

-- What a call for a value returns, and leaves.
abbrev pub Answer {ℓ} : Type ℓ → Type ℓ
Answer A = TransferResult × Stream A

-- Whether a stored waker is that of `w`.
abbrev pub is_waker : Option ℕ → ℕ → Bool
is_waker none w = false
is_waker (some u) w = u == w

module _ {ℓ} {A : Type ℓ} where
  -- The constructor; `none` where its check aborts the program.
  pub new : ℕ → Overflow → Option (Stream A)
  new capacity policy =
      if leb 1 capacity
      then some (record {
        ring = raw capacity;
        policy = policy;
        is_closed = false;
        consumer = none;
        dropped = 0;
      })
      else none

  -- The end of a push: the value is built in its slot, and the consumer's waker is taken.
  abbrev pub store : Stream A → A → Stream A × Option ℕ
  store s v = (record s { ring = push_locked s.ring v; consumer = none }, s.consumer)

  abbrev pub count_drop : Stream A → Stream A
  count_drop s = record s { dropped = add_size s.dropped 1 }

  -- A full ring that drops its oldest value.
  abbrev pub drop_head : Stream A → Stream A
  drop_head s = record s { ring = (pop_locked s.ring).1; dropped = add_size s.dropped 1 }

  pub push : Stream A → A → Stream A × Option ℕ
  push s v =
      if s.is_closed || s.ring.count == s.ring.capacity && refuses s.policy
      then (count_drop s, none)
      else if s.ring.count == s.ring.capacity
      then store (drop_head s) v
      else store s v

  pub close : Stream A → Stream A × Option ℕ
  close s = (record s { is_closed = true; consumer = none }, s.consumer)

  -- `popLocked`.
  abbrev pub take_out : Stream A → Option A × Stream A
  take_out s = ((pop_locked s.ring).0, record s { ring = (pop_locked s.ring).1 })

  pub try_next : Stream A → Option A × Stream A
  try_next s = if s.ring.count == 0 then (none, s) else take_out s

  -- One round of the loops of `next` and `nextUntil`: after `enqueued` the caller blocks as `w`.
  pub next_round : Stream A → ℕ → Option A × Answer A
  next_round s w =
      if s.ring.count == 0
      then (none, if s.is_closed then (closed, s) else (enqueued, record s { consumer = some w }))
      else ((take_out s).0, (done, (take_out s).1))

  pub is_ready : Stream A → Bool
  is_ready s = not (s.ring.count == 0) || s.is_closed

  pub attach : Stream A → ℕ → Bool × Stream A
  attach s w =
      if not (s.ring.count == 0) || s.is_closed
      then (false, s)
      else (true, record s { consumer = some w })

  pub detach : Stream A → ℕ → Stream A
  detach s w = if is_waker s.consumer w then record s { consumer = none } else s

  -- What `nextOrAttach` does with its waiter where nothing is buffered and the stream is open.
  abbrev pub attach_callback : Stream A → Option Callback → Answer A
  attach_callback s none = (would_block, s)
  attach_callback s (some w) =
      if w.is_cancelled then (cancelled, s) else (enqueued, record s { consumer = some w.address })

  pub next_or_attach : Stream A → Option Callback → Option A × Answer A
  next_or_attach s w =
      if s.ring.count == 0
      then (none, if s.is_closed then (closed, s) else attach_callback s w)
      else ((take_out s).0, (done, (take_out s).1))

  pub cancel : Stream A → Callback → Bool × Stream A × Callback
  cancel s w =
      if is_waker s.consumer w.address
      then (true, record s { consumer = none }, w)
      else (false, s, record w { is_cancelled = true })
