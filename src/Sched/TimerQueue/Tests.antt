-- ===== src/Sched/TimerQueue/Tests.antt =====
-- A queue of three entries: 1, 2 and 3, due at 30, 10 and 20.
use stackfull.Base.{ℕ, ◌≡◌, refl, true, false, not, ◌&&◌, ◌||◌, [], ◌∷◌, arith, ◌==◌, if◌then◌else◌}
use stackfull.Sched.TimerQueue.{
  TimerQueue, not_queued, no_deadline, enqueue, add, cancel, fire_rounds, fire_expired,
  fire_callbacks_and_close, sift_up, sift_down,
}
use stackfull.Sched.TimerQueue.Sift.{is_queued}
use stackfull.Sched.TimerQueue.Calls.{IsTimerQueue, add-IsTimerQueue, cancel-IsTimerQueue}
use stackfull.Sched.TimerQueue.Close.{IsClosed, fire_callbacks_and_close-IsClosed}
use stackfull.Sched.TimerQueue.Fire.{IsFired, Rising, fire_expired-IsFired}

abbrev due : ℕ → ℕ
due e = if e == 1 then 30 else if e == 2 then 10 else 20

abbrev empty : TimerQueue
empty = record {
  heap = record { at = λ _. 0; size = 0; heap_index = λ _. not_queued };
  deadline = due;
  has_callback = λ _. false;
  fired = λ _. false;
  cancelled = λ _. false;
  is_closed = false;
  size = 0;
  earliest = no_deadline;
  is_active = false;
}

empty-IsTimerQueue : IsTimerQueue empty
empty-IsTimerQueue = record {
  indexed = record {
    small = omega arith;
    placed = λ i lt. absurd (omega arith);
    queued_in = λ e q. absurd (q refl);
    queued_at = λ e q. absurd (q refl);
  };
  in_order = record { ordered = λ j pos lt. absurd (omega arith) };
  published = record { size_shown = refl; earliest_shown = refl; active_shown = refl };
}

abbrev one : TimerQueue
one = enqueue empty 1

one-IsTimerQueue : IsTimerQueue one
unfolding add
one-IsTimerQueue = (add-IsTimerQueue empty 1 empty-IsTimerQueue refl (omega arith)).0

two-fired : (fire_expired (enqueue one 2) 25).0 ≡ 2 ∷ []
unfolding fire_expired fire_rounds sift_up sift_down
two-fired = refl

add-IsTimerQueue_example :
    let (became_earliest, q) = add empty 1 in
    IsTimerQueue q
    × ((e : ℕ) → is_queued q.heap e ≡ (e == 1) || is_queued empty.heap e)
    × (became_earliest ≡ true → q.earliest ≡ 30)
    × (became_earliest ≡ false → q.earliest ≡ no_deadline)
add-IsTimerQueue_example = add-IsTimerQueue empty 1 empty-IsTimerQueue refl (omega arith)

cancel-IsTimerQueue_example :
    let (was_queued, q) = cancel one 1 in
    IsTimerQueue q
    × (was_queued ≡ is_queued one.heap 1)
    × ((e : ℕ) → is_queued q.heap e ≡ not (e == 1) && is_queued one.heap e)
    × (was_queued || q.cancelled 1 ≡ true)
cancel-IsTimerQueue_example = cancel-IsTimerQueue one 1 one-IsTimerQueue

fire_expired-IsFired_example :
    let (es, q) = fire_expired one 50 in IsFired one 50 es q × Rising one.deadline 0 es
fire_expired-IsFired_example = fire_expired-IsFired one 50 one-IsTimerQueue

fire_callbacks_and_close-IsClosed_example :
    let (es, q) = fire_callbacks_and_close one in IsClosed one es q
fire_callbacks_and_close-IsClosed_example = fire_callbacks_and_close-IsClosed one one-IsTimerQueue
