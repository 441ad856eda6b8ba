-- ===== src/Io/Registration/Wait/Tests.antt =====
-- A party that waits to read, and a report that comes just as it blocks.
use stackfull.Base.{◌<◌, ◌≡◌, refl, ◌⊎◌, true, false, none, some, List, [], ◌∷◌, arith}
use stackfull.Io.Registration.{Direction, slot, readable, collect}
use stackfull.Io.Registration.Wait.{
  Outcome, Point, Wait, Event, run_point, receive, advance, history, ready,
}
use stackfull.Io.Registration.Wait.Progress.{wait_misses_nothing}

abbrev fresh : Direction
fresh = record {
  events = 5;
  consumed = 0;
  waker = none;
  is_closed = false;
  is_exhausted = false;
  exhausted_at = 0;
}

abbrev start : Wait
start = record {
  registration = record {
    read = fresh;
    write = fresh;
    every_arrival = true;
    is_socket = false;
    is_byte_stream = false;
  };
  point = Point.check;
  woken = false;
  reported = 0;
}

abbrev events : List Event
events =
    Event.runs false
    ∷ Event.runs false
    ∷ Event.runs false
    ∷ Event.reports (true, false) (false, false)
    ∷ Event.runs false
    ∷ []

events-returned : (history readable 5 9 false start events).point ≡ Point.returned ready
unfolding history advance run_point receive collect
events-returned = refl

wait_misses_nothing_example :
    let s = history readable 5 9 false start events in
    let d = slot s.registration readable in
    (s.point ≡ Point.blocked → (d.waker ≡ some 9) × (s.reported ≡ 0) ⊎ (s.woken ≡ true))
    × ((r : Outcome) → s.point ≡ Point.returned r → d.waker ≡ none)
    × (s.point ≡ Point.returned ready → 0 < s.reported)
wait_misses_nothing_example =
    wait_misses_nothing 5 9 false (omega arith) readable start events refl refl refl (omega arith)
