-- ===== src/Sched/TimerQueue/Close.antt =====
-- What `fireCallbacksAndClose` calls back, and what it leaves.
use stackfull.Base.{
  ℕ, zero, suc, ◌+◌, ◌≤◌, ◌<◌, ◌≡◌, refl, sym, ap, ◌∙◌, inl, inr, true, false, not, ◌&&◌, List, [],
  arith, ltb, ◌==◌, ltb→lt, ==_iff, Bool-cases, if-cases, ltb-false→le, All,
}
use stackfull.Sched.TimerQueue.{
  TimerQueue, remove_locked, fire_at, find_callback, callback_rounds, fire_callbacks_and_close,
}
use stackfull.Sched.TimerQueue.Order.{false→≢}
use stackfull.Sched.TimerQueue.Sift.{is_queued}
use stackfull.Sched.TimerQueue.Calls.{IsTimerQueue, queued_place, remove_locked-IsTimerQueue}
use stackfull.Sched.TimerQueue.Fire.{member, mark-IsTimerQueue, both_lem}

-- The index that the scan stops at.
record IsFirst (q : TimerQueue) (i k : ℕ) : Type 0 where
  in_range : k ≤ q.heap.size
  skipped : (j : ℕ) → i ≤ j → j < k → q.has_callback (q.heap.at j) ≡ false
  stops : k < q.heap.size → q.has_callback (q.heap.at k) ≡ true

find_callback-IsFirst :
    (fuel : ℕ) (q : TimerQueue) (i : ℕ)
    → i ≤ q.heap.size
    → q.heap.size ≤ i + fuel
    → IsFirst q i (find_callback fuel q i)
unfolding find_callback
find_callback-IsFirst zero q i le enough = record {
  in_range = le;
  skipped = λ j from below. absurd (omega arith);
  stops = λ lt. absurd (omega arith);
}
find_callback-IsFirst (suc fuel) q i le enough = elim (Bool-cases (ltb i q.heap.size)) [
  | inr out ↦
      let past = ltb-false→le i q.heap.size out in
      rw out (record {
        in_range = le;
        skipped = λ j from below. absurd (omega arith);
        stops = λ lt. absurd (omega arith);
      })
  | inl inside ↦ elim (Bool-cases (q.has_callback (q.heap.at i))) [
    | inl has ↦
        rw (inside, has)
          (record {
            in_range = le;
            skipped = λ j from below. absurd (omega arith);
            stops = λ _. has;
          })
    | inr lacks ↦
        let lt = ltb→lt i q.heap.size inside in
        let rest = find_callback-IsFirst fuel q (i + 1) (omega arith) (omega arith) in
        rw (inside, lacks)
          (record {
            in_range = rest.in_range;
            skipped = λ j from below. elim (Bool-cases (j == i)) [
              | inl same ↦ ap (λ k. q.has_callback (q.heap.at k)) ((==_iff j i).0 same) ∙ lacks
              | inr other ↦ rest.skipped j (omega (arith, false→≢ j i other)) below
            ];
            stops = rest.stops;
          })
  ]
]

-- What rounds on `q` that called back `es` and left `q'` have done.
pub record IsClosed (q : TimerQueue) (es : List ℕ) (q' : TimerQueue) : Type 0 where
  pub ok : IsTimerQueue q'
  pub shut : q'.is_closed ≡ true
  pub left : (e : ℕ) → is_queued q'.heap e ≡ not (member e es) && is_queued q.heap e
  pub called : All (λ e. q.has_callback e ≡ true) es
  pub only_tasks : (e : ℕ) → is_queued q'.heap e ≡ true → q.has_callback e ≡ false

shut-IsTimerQueue : (q : TimerQueue) → IsTimerQueue q → IsTimerQueue (record q { is_closed = true })
shut-IsTimerQueue q ok = record {
  indexed = ok.indexed;
  in_order = ok.in_order;
  published = record {
    size_shown = ok.published.size_shown;
    earliest_shown = ok.published.earliest_shown;
    active_shown = ok.published.active_shown;
  };
}

stop-IsClosed :
    (q : TimerQueue)
    → IsTimerQueue q
    → ((e : ℕ) → is_queued q.heap e ≡ true → q.has_callback e ≡ false)
    → IsClosed q [] (record q { is_closed = true })
stop-IsClosed q ok only = record {
  ok = shut-IsTimerQueue q ok;
  shut = refl;
  left = λ e. refl;
  called = tt;
  only_tasks = only;
}

callback_rounds-IsClosed :
    (fuel : ℕ) (q : TimerQueue)
    → IsTimerQueue q
    → q.heap.size ≤ fuel
    → let (es, q') = callback_rounds fuel q in IsClosed q es q'
unfolding callback_rounds
callback_rounds-IsClosed zero q ok enough =
    stop-IsClosed q ok
      (λ e h. let (lt, _) = queued_place q.heap e ok.indexed h in absurd (omega arith))
callback_rounds-IsClosed (suc fuel) q ok enough =
    let k = find_callback q.heap.size q 0 in
    let first = find_callback-IsFirst q.heap.size q 0 (omega arith) (omega arith) in
    if-cases (λ (r : List ℕ × TimerQueue). IsClosed q r.0 r.1) (k == q.heap.size)
      (λ end. stop-IsClosed q ok (λ e h.
        let (lt, found) = queued_place q.heap e ok.indexed h in
        let at_end = (==_iff k q.heap.size).0 end in
        ap q.has_callback (sym found)
        ∙ first.skipped (q.heap.heap_index e) (omega arith) (omega arith)))
      (λ inner.
        let inside : k < q.heap.size = omega (arith, first.in_range, false→≢ k q.heap.size inner) in
        let closing = record q { is_closed = true } in
        let (ok', fewer, others) =
          remove_locked-IsTimerQueue closing k (shut-IsTimerQueue q ok) inside in
        let rest =
          callback_rounds-IsClosed fuel (fire_at closing k)
            (mark-IsTimerQueue (remove_locked closing k) _ ok') (omega arith) in
        record {
          ok = rest.ok;
          shut = rest.shut;
          left = λ e.
              rest.left e
              ∙ ap (λ b. not (member e (callback_rounds fuel (fire_at closing k)).0) && b)
                  (others e)
              ∙ both_lem (e == q.heap.at k) (member e (callback_rounds fuel (fire_at closing k)).0)
                  (is_queued q.heap e);
          called = (first.stops inside, rest.called);
          only_tasks = rest.only_tasks;
        })

-- On a well-formed queue whose calls are not interleaved, the entries that are called back have a
-- callback, all others stay, none that stays has a callback, and the queue is closed.
pub fire_callbacks_and_close-IsClosed :
    (q : TimerQueue)
    → IsTimerQueue q
    → let (es, q') = fire_callbacks_and_close q in IsClosed q es q'
unfolding fire_callbacks_and_close
fire_callbacks_and_close-IsClosed q ok = callback_rounds-IsClosed q.heap.size q ok (omega arith)
