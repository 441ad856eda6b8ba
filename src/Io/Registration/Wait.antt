-- ===== src/Io/Registration/Wait.antt =====
-- `Registration::waitFor` as a machine: one party that waits in one direction, whose steps are its
-- accesses and critical sections, while reports arrive at any moment.
mod Progress
mod Tests
use stackfull.Base.{
  ℕ, ◌+◌, Bool, false, ◌||◌, Option, none, some, List, [], ◌∷◌, ◌==◌, if◌then◌else◌,
}
use stackfull.Io.Registration.{
  Interest, Direction, Registration, slot, set_slot, collect, detach, readable, writable,
}

pub data Outcome : Type 0 where
  ready failed timed_out unwound : Outcome

-- Where the party stands: before which access of `waitFor`.
pub data Point : Type 0 where
  check register arm loop blocked timed : Point
  detaching returned : Outcome → Point

-- The call: its direction, the count that was seen, its waker, whether it has a deadline. The flag
-- `woken` is the wake that a park consumes, and `reported` is for the theorems: how many reports
-- newer than `seen` have arrived.
pub record Wait : Type 0 where
  pub registration : Registration
  pub point : Point
  pub woken : Bool
  pub reported : ℕ

pub data Event : Type 0 where
  -- The next access of the party; `arm` fails if the flag says so.
  runs : Bool → Event
  -- A report, of what is ready and what is closed.
  reports : Bool × Bool → Bool × Bool → Event
  -- A wake without a report, the deadline, a forced unwind.
  spurious expires unwinds : Event
  -- Anything that the other direction's party does.
  elsewhere : Direction → Event

module _ (i : Interest) (seen me : ℕ) (has_deadline : Bool) where
  abbrev pub go : Wait → Point → Wait
  go s p = record s { point = p }

  -- Whether the count is still the one that was seen.
  abbrev pub unmoved : Wait → Bool
  unmoved s = (slot s.registration i).events == seen

  abbrev pub store_waker : Wait → Wait
  store_waker s =
      let d = slot s.registration i in
      record s { registration = set_slot s.registration i (record d { waker = some me }) }

  pub run_point : Wait → Bool → Point → Wait
  run_point s fails check = go s (if unmoved s then register else returned ready)
  run_point s fails register = if unmoved s then go (store_waker s) arm else go s (returned ready)
  run_point s fails arm =
      go s (if s.registration.every_arrival then loop else if fails then detaching failed else loop)
  run_point s fails loop = go s (if unmoved s then blocked else returned ready)
  run_point s fails blocked = if s.woken then record s { woken = false; point = loop } else s
  run_point s fails timed = go s (if unmoved s then detaching timed_out else returned ready)
  run_point s fails (detaching r) = record s {
    registration = detach s.registration i me;
    point = returned r;
  }
  run_point s fails (returned r) = s

  abbrev pub wakes_me : Option ℕ → Bool
  wakes_me none = false
  wakes_me (some w) = w == me

  abbrev pub pick : Interest → Bool × Bool → Bool
  pick readable b = b.0
  pick writable b = b.1

  pub receive : Wait → Bool × Bool → Bool × Bool → Wait
  receive s now closed =
      let (reader, writer, r) = collect s.registration now closed in
      record s {
        registration = r;
        woken = s.woken || wakes_me reader || wakes_me writer;
        reported = if pick i now then s.reported + 1 else s.reported;
      }

  abbrev pub wake_at : Wait → Point → Wait
  wake_at s blocked = go s loop
  wake_at s p = s

  abbrev pub expire_at : Wait → Point → Wait
  expire_at s blocked = if has_deadline then go s timed else s
  expire_at s p = s

  abbrev pub unwind_at : Wait → Point → Wait
  unwind_at s blocked = go s (detaching unwound)
  unwind_at s p = s

  abbrev pub set_other : Registration → Interest → Direction → Registration
  set_other r readable d = record r { write = d }
  set_other r writable d = record r { read = d }

  pub advance : Wait → Event → Wait
  advance s (runs fails) = run_point s fails s.point
  advance s (reports now closed) = receive s now closed
  advance s spurious = wake_at s s.point
  advance s expires = expire_at s s.point
  advance s unwinds = unwind_at s s.point
  advance s (elsewhere d) = record s { registration = set_other s.registration i d }

  pub history : Wait → List Event → Wait
  history s [] = s
  history s (e ∷ es) = history (advance s e) es
