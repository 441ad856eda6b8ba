-- ===== src/Io/Registration/Wait/Progress.antt =====
-- No report is lost on a party that waits.
use stackfull.Base.{
  ℕ, ◌+◌, ◌%◌, ◌^◌, ◌≤◌, ◌<◌, ◌≡◌, refl, ap, ◌⊎◌, Bool, true, false, none, some, List, [], ◌∷◌,
  arith, ◌==◌, length,
}
use stackfull.Io.Registration.{Interest, Direction, slot, collect, detach}
use stackfull.Io.Registration.Wait.{
  Outcome, Point, Wait, Event, run_point, receive, advance, history, set_other, ready, wake_at,
  expire_at, unwind_at,
}

-- Where the party's waker may be stored.
abbrev pub may_store : Point → Bool
may_store Point.check = false
may_store Point.register = false
may_store (Point.returned _) = false
may_store _ = true

-- Before its wake, the waker of a waiting party stands in the registration, and no newer report has
-- arrived; what returned has left no waker, and `ready` only after a report.
pub record Inv (seen me : ℕ) (p : Point) (d : Direction) (woken : Bool) (reported : ℕ)
    : Type 0 where
  pub counted : d.events ≡ (seen + reported) % 2 ^ 32
  pub clean : may_store p ≡ false → d.waker ≡ none
  pub held :
      may_store p ≡ true → (d.waker ≡ some me) × (reported ≡ 0) ⊎ (d.waker ≡ none) × (0 < reported)
  pub awake : p ≡ Point.blocked → (d.waker ≡ some me) ⊎ (woken ≡ true)
  pub fresh : p ≡ Point.returned ready → 0 < reported
  pub leaves_early : p ≡ Point.detaching ready → 0 < reported

module _ (seen me : ℕ) (has_deadline : Bool) (small : seen < 2 ^ 32) where
  abbrev pub WaitInv : Interest → Wait → Type 0
  WaitInv i s = Inv seen me s.point (slot s.registration i) s.woken s.reported

  unmoved_lem :
      (events reported : ℕ)
      → events ≡ (seen + reported) % 2 ^ 32
      → reported < 2 ^ 32
      → (events == seen) ≡ (reported == 0)
  unmoved_lem events reported e few = ground arith

  check-Inv :
      (i : Interest) (s : Wait) (fails : Bool)
      → WaitInv i s
      → s.reported < 2 ^ 32
      → s.point ≡ Point.check
      → WaitInv i (run_point i seen me has_deadline s fails Point.check)
  unfolding run_point
  check-Inv i s fails h few e =
      ground (arith, unmoved_lem (slot s.registration i).events s.reported)

  register-Inv :
      (i : Interest) (s : Wait) (fails : Bool)
      → WaitInv i s
      → s.reported < 2 ^ 32
      → s.point ≡ Point.register
      → WaitInv i (run_point i seen me has_deadline s fails Point.register)
  unfolding run_point
  register-Inv Interest.readable s fails h few e =
      ground (arith, unmoved_lem s.registration.read.events s.reported)
  register-Inv Interest.writable s fails h few e =
      ground (arith, unmoved_lem s.registration.write.events s.reported)

  arm-Inv :
      (i : Interest) (s : Wait) (fails : Bool)
      → WaitInv i s
      → s.point ≡ Point.arm
      → WaitInv i (run_point i seen me has_deadline s fails Point.arm)
  unfolding run_point
  arm-Inv i s fails h e = ground arith

  loop-Inv :
      (i : Interest) (s : Wait) (fails : Bool)
      → WaitInv i s
      → s.reported < 2 ^ 32
      → s.point ≡ Point.loop
      → WaitInv i (run_point i seen me has_deadline s fails Point.loop)
  unfolding run_point
  loop-Inv i s fails h few e = ground (arith, unmoved_lem (slot s.registration i).events s.reported)

  blocked-Inv :
      (i : Interest) (s : Wait) (fails : Bool)
      → WaitInv i s
      → s.point ≡ Point.blocked
      → WaitInv i (run_point i seen me has_deadline s fails Point.blocked)
  unfolding run_point
  blocked-Inv i s fails h e = ground arith

  timed-Inv :
      (i : Interest) (s : Wait) (fails : Bool)
      → WaitInv i s
      → s.reported < 2 ^ 32
      → s.point ≡ Point.timed
      → WaitInv i (run_point i seen me has_deadline s fails Point.timed)
  unfolding run_point
  timed-Inv i s fails h few e =
      ground (arith, unmoved_lem (slot s.registration i).events s.reported)

  detaching-Inv :
      (i : Interest) (s : Wait) (fails : Bool) (r : Outcome)
      → WaitInv i s
      → s.point ≡ Point.detaching r
      → WaitInv i (run_point i seen me has_deadline s fails (Point.detaching r))
  unfolding run_point detach
  detaching-Inv Interest.readable s fails r h e = ground arith
  detaching-Inv Interest.writable s fails r h e = ground arith

  receive-Inv :
      (i : Interest) (s : Wait) (now closed : Bool × Bool)
      → WaitInv i s
      → s.reported + 1 < 2 ^ 32
      → WaitInv i (receive i seen me has_deadline s now closed)
  unfolding receive collect
  receive-Inv Interest.readable s now closed h few = ground arith
  receive-Inv Interest.writable s now closed h few = ground arith

  returned-Inv :
      (i : Interest) (s : Wait) (fails : Bool) (r : Outcome)
      → WaitInv i s
      → WaitInv i (run_point i seen me has_deadline s fails (Point.returned r))
  unfolding run_point
  returned-Inv i s fails r h = h

  run_point-Inv :
      (i : Interest) (s : Wait) (fails : Bool) (p : Point)
      → WaitInv i s
      → s.reported + 1 < 2 ^ 32
      → s.point ≡ p
      → WaitInv i (run_point i seen me has_deadline s fails p)
  run_point-Inv i s fails Point.check h few e = check-Inv i s fails h (omega arith) e
  run_point-Inv i s fails Point.register h few e = register-Inv i s fails h (omega arith) e
  run_point-Inv i s fails Point.arm h few e = arm-Inv i s fails h e
  run_point-Inv i s fails Point.loop h few e = loop-Inv i s fails h (omega arith) e
  run_point-Inv i s fails Point.blocked h few e = blocked-Inv i s fails h e
  run_point-Inv i s fails Point.timed h few e = timed-Inv i s fails h (omega arith) e
  run_point-Inv i s fails (Point.detaching r) h few e = detaching-Inv i s fails r h e
  run_point-Inv i s fails (Point.returned r) h few e = returned-Inv i s fails r h

  -- The moves of the party that are no accesses.
  wake_at-Inv :
      (i : Interest) (s : Wait) (p : Point)
      → WaitInv i s
      → s.point ≡ p
      → WaitInv i (wake_at i seen me has_deadline s p)
  wake_at-Inv i s Point.blocked h e = ground arith
  wake_at-Inv i s p h e = h

  expire_at-Inv :
      (i : Interest) (s : Wait) (p : Point)
      → WaitInv i s
      → s.point ≡ p
      → WaitInv i (expire_at i seen me has_deadline s p)
  expire_at-Inv i s Point.blocked h e = ground arith
  expire_at-Inv i s p h e = h

  unwind_at-Inv :
      (i : Interest) (s : Wait) (p : Point)
      → WaitInv i s
      → s.point ≡ p
      → WaitInv i (unwind_at i seen me has_deadline s p)
  unwind_at-Inv i s Point.blocked h e = ground arith
  unwind_at-Inv i s p h e = h

  elsewhere-Inv :
      (i : Interest) (s : Wait) (d : Direction)
      → WaitInv i s
      → WaitInv i (record s { registration = set_other i seen me has_deadline s.registration i d })
  elsewhere-Inv Interest.readable s d h = h
  elsewhere-Inv Interest.writable s d h = h

  advance-Inv :
      (i : Interest) (s : Wait) (e : Event)
      → WaitInv i s
      → s.reported + 1 < 2 ^ 32
      → WaitInv i (advance i seen me has_deadline s e)
  unfolding advance
  advance-Inv i s (Event.runs fails) h few = run_point-Inv i s fails s.point h few refl
  advance-Inv i s (Event.reports now closed) h few = receive-Inv i s now closed h few
  advance-Inv i s Event.spurious h few = wake_at-Inv i s s.point h refl
  advance-Inv i s Event.expires h few = expire_at-Inv i s s.point h refl
  advance-Inv i s Event.unwinds h few = unwind_at-Inv i s s.point h refl
  advance-Inv i s (Event.elsewhere d) h few = elsewhere-Inv i s d h

  run_point_grows :
      (i : Interest) (s : Wait) (fails : Bool) (p : Point)
      → (run_point i seen me has_deadline s fails p).reported ≤ s.reported + 1
  unfolding run_point
  run_point_grows Interest.readable s fails Point.register = ground arith
  run_point_grows Interest.writable s fails Point.register = ground arith
  run_point_grows i s fails p = ground arith

  at_grows :
      (i : Interest) (s : Wait) (p : Point)
      → ((wake_at i seen me has_deadline s p).reported ≤ s.reported + 1)
        × ((expire_at i seen me has_deadline s p).reported ≤ s.reported + 1)
        × ((unwind_at i seen me has_deadline s p).reported ≤ s.reported + 1)
  at_grows i s Point.blocked = ground arith
  at_grows i s p = ground arith

  advance_grows :
      (i : Interest) (s : Wait) (e : Event)
      → (advance i seen me has_deadline s e).reported ≤ s.reported + 1
  unfolding advance receive
  advance_grows i s (Event.runs fails) = run_point_grows i s fails s.point
  advance_grows i s (Event.reports now closed) = ground arith
  advance_grows i s Event.spurious = (at_grows i s s.point).0
  advance_grows i s Event.expires = (at_grows i s s.point).1
  advance_grows i s Event.unwinds = (at_grows i s s.point).2
  advance_grows i s (Event.elsewhere d) = omega arith

  history-Inv :
      (i : Interest) (s : Wait) (es : List Event)
      → WaitInv i s
      → s.reported + length es < 2 ^ 32
      → WaitInv i (history i seen me has_deadline s es)
  unfolding history
  history-Inv i s [] h few = h
  history-Inv i s (e ∷ es) h few =
      history-Inv i (advance i seen me has_deadline s e) es (advance-Inv i s e h (omega arith))
        (omega (arith, advance_grows i s e))

  start-Inv :
      (i : Interest) (s : Wait)
      → s.point ≡ Point.check
      → (slot s.registration i).waker ≡ none
      → (slot s.registration i).events ≡ (seen + s.reported) % 2 ^ 32
      → WaitInv i s
  start-Inv i s at_start no_waker counted = ground arith

  blocked_lem :
      (n w : ℕ) (p : Point) (d : Direction) (woken : Bool) (reported : ℕ)
      → Inv n w p d woken reported
      → p ≡ Point.blocked
      → (d.waker ≡ some w) × (reported ≡ 0) ⊎ (woken ≡ true)
  blocked_lem n w p d woken reported h e = ground arith

  -- A party that begins to wait with no waker stored, after fewer than 2^32 reports, whatever
  -- happens then: it blocks only with its waker stored and no newer report, or with a wake that is
  -- still to be consumed; once it has returned, it has left no waker; and it returns without an
  -- error or a time-out only after a report that is newer than the count it had seen.
  pub wait_misses_nothing :
      (i : Interest) (s : Wait) (es : List Event)
      → s.point ≡ Point.check
      → (slot s.registration i).waker ≡ none
      → (slot s.registration i).events ≡ (seen + s.reported) % 2 ^ 32
      → s.reported + length es < 2 ^ 32
      → let s' = history i seen me has_deadline s es in
        let d = slot s'.registration i in
        (s'.point ≡ Point.blocked → (d.waker ≡ some me) × (s'.reported ≡ 0) ⊎ (s'.woken ≡ true))
        × ((r : Outcome) → s'.point ≡ Point.returned r → d.waker ≡ none)
        × (s'.point ≡ Point.returned ready → 0 < s'.reported)
  wait_misses_nothing i s es at_start no_waker counted few =
      let h = history-Inv i s es (start-Inv i s at_start no_waker counted) few in
      (λ e. blocked_lem seen me _ _ _ _ h e, λ r e. h.clean (ap may_store e), h.fresh)
