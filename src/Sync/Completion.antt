-- ===== src/Sync/Completion.antt =====
-- sync/include/stackfull/sync/Completion.h: a one-shot result, with any number of producers and the
-- one consumer that waits for it. A step is one access or critical section of a party.
mod Delivery
mod Awaited
mod Get
mod Tests
use stackfull.Base.{
  ℕ, Bool, true, false, ◌||◌, Option, none, some, List, [], ◌∷◌, ◌==◌, if◌then◌else◌,
}
use stackfull.Sync.Channel.{Callback}
use stackfull.Sync.Stream.{is_waker}
use stackfull.Io.Registration.{EnqueueResult, ready, enqueued, cancelled}

-- An error and an exception are numbers.
pub record Outcome {ℓ} (A : Type ℓ) : Type ℓ where
  pub value : A
  pub error : Option ℕ
  pub exception : Option ℕ

pub record CompletionState {ℓ} (A : Type ℓ) : Type ℓ where
  pub consumer : Option ℕ
  pub claimed : Bool
  pub is_ready : Bool
  pub outcome : Outcome A

-- What a producer is to deliver: `set`, `fail`, `setException`.
pub data Report {ℓ} (A : Type ℓ) : Type ℓ where
  value : A → Report A
  error : ℕ → Report A
  exception : ℕ → Report A

-- The points of a producer: before its claim, before the store, before the critical section of
-- `publish`, before the wake, and at the end, where `refused` came second.
pub data Producer : Type 0 where
  starts stores publishes refused finished : Producer
  wakes : Option ℕ → Producer

-- The points of the consumer in `get` and `getUntil`.
pub data Consumer {ℓ} (A : Type ℓ) : Type ℓ where
  asks attaches blocked rechecks leaves gives_up takes timed_out : Consumer A
  got : Outcome A → Consumer A

module _ {ℓ} {A : Type ℓ} where
  pub write : Report A → Outcome A → Outcome A
  write (value a) o = record o { value = a }
  write (error e) o = record o { error = some e }
  write (exception e) o = record o { exception = some e }

  pub attach_or_ready : CompletionState A → Callback → EnqueueResult × CompletionState A
  attach_or_ready s w =
      if s.is_ready
      then (ready, s)
      else if w.is_cancelled
      then (cancelled, s)
      else (enqueued, record s { consumer = some w.address })

  pub cancel : CompletionState A → Callback → Bool × CompletionState A × Callback
  cancel s w =
      if is_waker s.consumer w.address
      then (true, record s { consumer = none }, w)
      else (false, s, record w { is_cancelled = true })

  pub attach : CompletionState A → ℕ → Bool × CompletionState A
  attach s w = if s.is_ready then (false, s) else (true, record s { consumer = some w })

  pub detach : CompletionState A → ℕ → CompletionState A
  detach s w = if is_waker s.consumer w then record s { consumer = none } else s

  -- The critical section of `publish`, and the waker that it takes.
  pub publish : CompletionState A → Option ℕ × CompletionState A
  publish s = (s.consumer, record s { is_ready = true; consumer = none })

-- The parties: the producers by number, the consumer, and `woken`, the wake that its block consumes.
pub record System {ℓ} (A : Type ℓ) : Type ℓ where
  pub state : CompletionState A
  pub producers : ℕ → Producer
  pub consumer : Consumer A
  pub woken : Bool

pub data Event : Type 0 where
  produces : ℕ → Event
  -- The consumer's next step, a wake for no reason, its deadline.
  consumes spurious expires : Event

abbrev pub put : (ℕ → Producer) → ℕ → Producer → ℕ → Producer
put ps i p j = if j == i then p else ps j

-- The producer `i` delivers `reports i`; the consumer's waker is `me`.
module _ {ℓ} {A : Type ℓ} (reports : ℕ → Report A) (me : ℕ) (has_deadline : Bool) where
  abbrev pub move : System A → ℕ → Producer → CompletionState A → System A
  move s i p c = record s { state = c; producers = put s.producers i p }

  pub run_producer : System A → ℕ → Producer → System A
  run_producer s i starts =
      if s.state.claimed
      then move s i refused s.state
      else move s i stores (record s.state { claimed = true })
  run_producer s i stores =
      move s i publishes (record s.state { outcome = write (reports i) s.state.outcome })
  run_producer s i publishes = let (w, c) = publish s.state in move s i (wakes w) c
  run_producer s i (wakes w) = record s {
    producers = put s.producers i finished;
    woken = s.woken || is_waker w me;
  }
  run_producer s i refused = s
  run_producer s i finished = s

  abbrev pub consumer_at : System A → CompletionState A → Consumer A → System A
  consumer_at s c p = record s { state = c; consumer = p }

  pub run_consumer : System A → Consumer A → System A
  run_consumer s asks = consumer_at s s.state (if s.state.is_ready then takes else attaches)
  run_consumer s attaches =
      let (waits, c) = attach s.state me in
      consumer_at s c (if waits then blocked else if has_deadline then rechecks else leaves)
  run_consumer s blocked = if s.woken then record s { woken = false; consumer = attaches } else s
  run_consumer s rechecks = consumer_at s s.state (if s.state.is_ready then leaves else gives_up)
  run_consumer s leaves = consumer_at s (detach s.state me) takes
  run_consumer s gives_up = consumer_at s (detach s.state me) timed_out
  run_consumer s takes = consumer_at s s.state (got s.state.outcome)
  run_consumer s timed_out = s
  run_consumer s (got o) = s

  abbrev pub stir : System A → Consumer A → System A
  stir s blocked = consumer_at s s.state attaches
  stir s p = s

  abbrev pub expire : System A → Consumer A → System A
  expire s blocked = if has_deadline then consumer_at s s.state rechecks else s
  expire s p = s

  pub advance : System A → Event → System A
  advance s (produces i) = run_producer s i (s.producers i)
  advance s consumes = run_consumer s s.consumer
  advance s spurious = stir s s.consumer
  advance s expires = expire s s.consumer

  pub history : System A → List Event → System A
  history s [] = s
  history s (e ∷ es) = history (advance s e) es

-- Before anything happens; `blank` is the value of `T{}`.
abbrev pub initial {ℓ} : {A : Type ℓ} → A → System A
initial blank = record {
  state = record {
    consumer = none;
    claimed = false;
    is_ready = false;
    outcome = record { value = blank; error = none; exception = none };
  };
  producers = λ i. starts;
  consumer = asks;
  woken = false;
}
