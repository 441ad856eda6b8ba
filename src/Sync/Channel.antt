-- ===== src/Sync/Channel.antt =====
-- sync/include/stackfull/sync/Channel.h: the bounded channel. Each critical section under the
-- channel's lock is one function; a waiter list is the list of its waiters, oldest first, which
-- `WaitList` justifies, and the waiters that a call notifies are part of its result, in order.
mod Spec
mod Refine
mod Watch
mod Wakeups
mod Tests
use stackfull.Base.{
  ℕ, Bool, true, false, ◌||◌, Option, none, some, List, [], ◌∷◌, ◌++◌, ltb, leb, ◌==◌,
  if◌then◌else◌,
}
use stackfull.Sync.WaitList.Cancel.{remove}
use stackfull.Sync.WaitList.Seg.{contains}
use stackfull.Sync.Slots.{Slots, push_locked, pop_locked, raw}

pub data TransferResult : Type 0 where
  done closed would_block enqueued cancelled : TransferResult

pub record Channel {ℓ} (A : Type ℓ) : Type ℓ where
  pub ring : Slots A
  pub is_closed : Bool
  pub senders : List ℕ
  pub receivers : List ℕ

-- A callback waiter: its address, and its `cancelled` mark.
pub record Callback : Type 0 where
  pub address : ℕ
  pub is_cancelled : Bool

-- What `pop_front` returns, as the list of the waiters to notify.
abbrev pub first_waiter : List ℕ → List ℕ
first_waiter [] = []
first_waiter (w ∷ ws) = w ∷ []

abbrev pub behind_first : List ℕ → List ℕ
behind_first [] = []
behind_first (w ∷ ws) = ws

-- `cancel_waiter` on such a list: whether the waiter was queued, the list and the waiter after it.
abbrev pub cancel_in : List ℕ → Callback → Bool × List ℕ × Callback
cancel_in ws w =
    if contains ws w.address
    then (true, remove ws w.address, w)
    else (false, ws, record w { is_cancelled = true })

-- `enqueueLocked`: the result, and the waiter list after it. A null waiter is `none`.
pub enqueue_locked : List ℕ → Option Callback → TransferResult × List ℕ
enqueue_locked ws none = (would_block, ws)
enqueue_locked ws (some w) =
    if w.is_cancelled then (cancelled, ws) else (enqueued, ws ++ w.address ∷ [])

-- The loop of `close` that pops every waiter and links it before the chain.
abbrev pub detach_all : List ℕ → List ℕ → List ℕ
detach_all [] chain = chain
detach_all (w ∷ ws) chain = detach_all ws (w ∷ chain)

-- What an operation leaves: its result, the channel, and the waiters to notify.
abbrev pub Outcome {ℓ} : Type ℓ → Type ℓ
Outcome A = TransferResult × Channel A × List ℕ

module _ {ℓ} {A : Type ℓ} where
  -- The constructor; `none` where its check aborts the program.
  pub new : ℕ → Option (Channel A)
  new capacity =
      if leb 1 capacity
      then some (record { ring = raw capacity; is_closed = false; senders = []; receivers = [] })
      else none

  -- The branch of a send that finds room.
  abbrev pub accept : Channel A → A → Outcome A
  accept c v =
      let c' = record c { ring = push_locked c.ring v; receivers = behind_first c.receivers } in
      (done, c', first_waiter c.receivers)

  -- The branch of a receive that finds a value; with the value.
  abbrev pub deliver : Channel A → Option A × Outcome A
  deliver c =
      let (out, ring) = pop_locked c.ring in
      let c' = record c { ring = ring; senders = behind_first c.senders } in
      (out, (done, c', first_waiter c.senders))

  -- One round of `send`'s loop: `closed` and `done` return, and after `enqueued` the caller waits as
  -- `w` and goes round again.
  pub send_round : Channel A → A → ℕ → Outcome A
  send_round c v w =
      if c.is_closed
      then (closed, c, [])
      else if ltb c.ring.count c.ring.capacity
      then accept c v
      else (enqueued, record c { senders = c.senders ++ w ∷ [] }, [])

  pub try_send : Channel A → A → Bool × Channel A × List ℕ
  try_send c v =
      if c.is_closed || c.ring.count == c.ring.capacity
      then (false, c, [])
      else let (r, c', notified) = accept c v in (true, c', notified)

  -- One round of `recv`'s loop.
  pub recv_round : Channel A → ℕ → Option A × Outcome A
  recv_round c w =
      if c.ring.count == 0
      then (
        none,
        if c.is_closed
            then (closed, c, [])
            else (enqueued, record c { receivers = c.receivers ++ w ∷ [] }, []),
      )
      else deliver c

  pub try_recv : Channel A → Option A × Bool × Channel A × List ℕ
  try_recv c =
      if c.ring.count == 0
      then (none, false, c, [])
      else let (out, (r, c', notified)) = deliver c in (out, true, c', notified)

  pub send_or_enqueue : Channel A → A → Option Callback → Outcome A
  unfolding enqueue_locked
  send_or_enqueue c v w =
      if c.is_closed
      then (closed, c, [])
      else if ltb c.ring.count c.ring.capacity
      then accept c v
      else let (result, ws) = enqueue_locked c.senders w in (result, record c { senders = ws }, [])

  pub recv_or_enqueue : Channel A → Option Callback → Option A × Outcome A
  unfolding enqueue_locked
  recv_or_enqueue c w =
      if c.ring.count == 0
      then (
        none,
        if c.is_closed
            then (closed, c, [])
            else let (result, ws) = enqueue_locked c.receivers w in
              (result, record c { receivers = ws }, []),
      )
      else deliver c

  pub cancel_send : Channel A → Callback → Bool × Channel A × Callback
  cancel_send c w =
      let (queued, ws, w') = cancel_in c.senders w in (queued, record c { senders = ws }, w')

  pub cancel_recv : Channel A → Callback → Bool × Channel A × Callback
  cancel_recv c w =
      let (queued, ws, w') = cancel_in c.receivers w in (queued, record c { receivers = ws }, w')

  -- The `WaitGuard` of a `send` or a `recv` whose wait is unwound: a waiter that is still queued
  -- leaves, and for one that was notified it only waits until its notifier is done with it.
  pub unwind_send : Channel A → ℕ → Channel A
  unwind_send c w = if contains c.senders w then record c { senders = remove c.senders w } else c

  pub unwind_recv : Channel A → ℕ → Channel A
  unwind_recv c w =
      if contains c.receivers w then record c { receivers = remove c.receivers w } else c

  pub close : Channel A → Channel A × List ℕ
  close c =
      let c' = record c { is_closed = true; senders = []; receivers = [] } in
      (c', detach_all c.receivers (detach_all c.senders []))
