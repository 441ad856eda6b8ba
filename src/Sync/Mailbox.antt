-- ===== src/Sync/Mailbox.antt =====
-- sync/include/stackfull/sync/Mailbox.h: closures, which are numbers, that any party posts and one
-- consumer runs. A step is a critical section or what a party does between two of them.
mod Delivery
mod History
mod Attach
mod Tests
use stackfull.Base.{
  ℕ, Bool, true, false, not, ◌||◌, Option, none, some, List, [], ◌∷◌, ◌++◌, ◌==◌, if◌then◌else◌,
}
use stackfull.Sync.Stream.{is_waker}

pub record Mailbox : Type 0 where
  pub queue : List ℕ
  pub closed : Bool
  pub consumer : Option ℕ

-- Where a party stands that closes: elsewhere, or before it wakes the waker that it has taken.
pub data Closer : Type 0 where
  elsewhere : Closer
  wakes : Option ℕ → Closer

-- Where the consumer stands: elsewhere; before the critical section of `next` or `nextUntil`;
-- blocked; before the critical section after a time-out; before the detach; or after it.
pub data Consumer : Type 0 where
  away takes blocked late : Consumer
  leaves returned : Option ℕ → Consumer

abbrev pub is_empty : List ℕ → Bool
is_empty [] = true
is_empty (f ∷ fs) = false

-- The parties, the wake that a block consumes, and the closures accepted and taken so far.
pub record System : Type 0 where
  pub mailbox : Mailbox
  pub closers : ℕ → Closer
  pub consumer : Consumer
  pub woken : Bool
  pub posted : List ℕ
  pub taken : List ℕ

pub data Event : Type 0 where
  posts : ℕ → Event
  closes : ℕ → Event
  closer_wakes : ℕ → Event
  -- The consumer begins a call, makes a step, is woken for no reason, reaches its deadline.
  begins consumes spurious expires : Event

abbrev pub put : (ℕ → Closer) → ℕ → Closer → ℕ → Closer
put cs i p j = if j == i then p else cs j

pub is_ready : Mailbox → Bool
is_ready b = not (is_empty b.queue) || b.closed

pub attach : Mailbox → ℕ → Bool × Mailbox
attach b w =
    if not (is_empty b.queue) || b.closed
    then (false, b)
    else (true, record b { consumer = some w })

pub detach : Mailbox → ℕ → Mailbox
detach b w = if is_waker b.consumer w then record b { consumer = none } else b

module _ (me : ℕ) (has_deadline : Bool) where
  pub post : System → ℕ → System
  post s f = if s.mailbox.closed then s else record s {
    mailbox = record s.mailbox { queue = s.mailbox.queue ++ f ∷ [] };
    woken = s.woken || is_waker s.mailbox.consumer me;
    posted = s.posted ++ f ∷ [];
  }

  pub close : System → ℕ → Closer → System
  close s i elsewhere = record s {
    mailbox = record s.mailbox { closed = true };
    closers = put s.closers i (wakes s.mailbox.consumer);
  }
  close s i (wakes w) = s

  pub close_wakes : System → ℕ → Closer → System
  close_wakes s i elsewhere = s
  close_wakes s i (wakes w) = record s {
    closers = put s.closers i elsewhere;
    woken = s.woken || is_waker w me;
  }

  abbrev pub go : System → Consumer → System
  go s p = record s { consumer = p }

  -- The first closure leaves the queue.
  abbrev pub take_first : System → ℕ → List ℕ → System
  take_first s f fs = record s {
    mailbox = record s.mailbox { queue = fs };
    consumer = leaves (some f);
    taken = s.taken ++ f ∷ [];
  }

  abbrev pub take_or_wait : System → List ℕ → System
  take_or_wait s (f ∷ fs) = take_first s f fs
  take_or_wait s [] =
      if s.mailbox.closed
      then go s (leaves none)
      else record s { mailbox = record s.mailbox { consumer = some me }; consumer = blocked }

  abbrev pub take_late : System → List ℕ → System
  take_late s (f ∷ fs) = take_first s f fs
  take_late s [] = go s (leaves none)

  pub run_consumer : System → Consumer → System
  run_consumer s away = s
  run_consumer s takes = take_or_wait s s.mailbox.queue
  run_consumer s blocked = if s.woken then record s { woken = false; consumer = takes } else s
  run_consumer s late = take_late s s.mailbox.queue
  run_consumer s (leaves o) = record s { mailbox = detach s.mailbox me; consumer = returned o }
  run_consumer s (returned o) = s

  abbrev pub begin : System → Consumer → System
  begin s away = go s takes
  begin s (returned o) = go s takes
  begin s p = s

  abbrev pub stir : System → Consumer → System
  stir s blocked = go s takes
  stir s p = s

  abbrev pub expire : System → Consumer → System
  expire s blocked = if has_deadline then go s late else s
  expire s p = s

  pub advance : System → Event → System
  advance s (posts f) = post s f
  advance s (closes i) = close s i (s.closers i)
  advance s (closer_wakes i) = close_wakes s i (s.closers i)
  advance s begins = begin s s.consumer
  advance s consumes = run_consumer s s.consumer
  advance s spurious = stir s s.consumer
  advance s expires = expire s s.consumer

  pub history : System → List Event → System
  history s [] = s
  history s (e ∷ es) = history (advance s e) es

abbrev pub initial : System
initial = record {
  mailbox = record { queue = []; closed = false; consumer = none };
  closers = λ i. elsewhere;
  consumer = away;
  woken = false;
  posted = [];
  taken = [];
}
