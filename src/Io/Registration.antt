-- ===== src/Io/Registration.antt =====
-- io/src/Registration.cpp and include/stackfull/io/Registration.h: a descriptor's readiness reports
-- and the party that waits for them. A set of directions is a pair of Booleans; a waker is the
-- number of whom it wakes.
pub mod Wait
use stackfull.Base.{
  ℕ, ◌+◌, ◌%◌, ◌^◌, Bool, true, false, not, ◌&&◌, Option, none, some, ltb, ◌==◌, if◌then◌else◌,
}
use stackfull.Sync.Channel.{Callback}
use stackfull.Sync.Stream.{is_waker}

pub data Interest : Type 0 where
  readable writable : Interest

pub record Direction : Type 0 where
  pub events : ℕ  -- uint32
  pub consumed : ℕ
  pub waker : Option ℕ
  pub is_closed : Bool
  pub is_exhausted : Bool
  pub exhausted_at : ℕ

pub record Registration : Type 0 where
  pub read : Direction
  pub write : Direction
  pub every_arrival : Bool
  pub is_socket : Bool
  pub is_byte_stream : Bool

abbrev pub slot : Registration → Interest → Direction
slot r readable = r.read
slot r writable = r.write

abbrev pub set_slot : Registration → Interest → Direction → Registration
set_slot r readable d = record r { read = d }
set_slot r writable d = record r { write = d }

abbrev pub clear_waker : Direction → Direction
clear_waker d = record d { waker = none }

-- What `collect` does to one direction, and the waker that it takes.
abbrev pub close_if : Bool → Direction → Direction
close_if closed d = if closed then record d { is_closed = true } else d

abbrev pub report_if : Bool → Direction → Direction
report_if ready d = if ready then record d { events = (d.events + 1) % 2 ^ 32; waker = none } else d

abbrev pub taken_if : Bool → Direction → Option ℕ
taken_if ready d = if ready then d.waker else none

-- The wakeups for the reader and the writer, and the registration after a report.
unfoldable pub collect :
    Registration → Bool × Bool → Bool × Bool → Option ℕ × Option ℕ × Registration
collect r ready closed = (
  taken_if ready.0 r.read,
  taken_if ready.1 r.write,
  record r {
    read = report_if ready.0 (close_if closed.0 r.read);
    write = report_if ready.1 (close_if closed.1 r.write);
  },
)

pub detach : Registration → Interest → ℕ → Registration
detach r i w = if is_waker (slot r i).waker w then set_slot r i (clear_waker (slot r i)) else r

pub data EnqueueResult : Type 0 where
  ready enqueued cancelled : EnqueueResult

-- `watch`, where `arm` is the poller's, which may report what had already arrived.
pub watch :
    (Registration → Interest → Registration)
    → Registration
    → Interest
    → ℕ
    → Callback
    → EnqueueResult × Registration
watch arm r i seen w =
    let armed = if r.every_arrival then r else arm r i in
    if w.is_cancelled
    then (cancelled, armed)
    else if not ((slot armed i).events == seen)
    then (ready, armed)
    else (enqueued, set_slot armed i (record (slot armed i) { waker = some w.address }))

pub unwatch : Registration → Interest → Callback → Bool × Registration × Callback
unwatch r i w =
    if is_waker (slot r i).waker w.address
    then (true, set_slot r i (clear_waker (slot r i)), w)
    else (false, r, record w { is_cancelled = true })

pub data Kind : Type 0 where
  other pipe stream_socket datagram_socket : Kind

abbrev pub sends : Kind → Bool
sends stream_socket = true
sends datagram_socket = true
sends _ = false

abbrev pub streams : Kind → Bool
streams stream_socket = true
streams pipe = true
streams _ = false

pub set_kind : Registration → Kind → Registration
set_kind r k = record r { is_socket = sends k; is_byte_stream = streams k && r.every_arrival }

pub exhausted : Registration → Interest → ℕ → Bool
exhausted r i seen =
    (slot r i).is_exhausted && (slot r i).exhausted_at == seen && not (slot r i).is_closed

pub note_transfer : Registration → Interest → ℕ → ℕ → ℕ → Registration
note_transfer r i seen bytes asked = set_slot r i (record (slot r i) {
  is_exhausted = r.is_byte_stream && not (bytes == 0) && ltb bytes asked;
  exhausted_at = seen;
})
