-- ===== src/Sync/Channel/Tests.antt =====
-- A channel of two slots: runs, and the theorems at them.
use stackfull.Base.{
  ℕ, ◌+◌, ◌≤◌, ◌≡◌, refl, ◌⊎◌, true, false, none, some, List, [], ◌∷◌, arith, length,
}
use stackfull.Sync.Slots.{raw}
use stackfull.Sync.Slots.Refine.{IsRing, raw-IsRing}
use stackfull.Sync.Channel.{enqueue_locked, Channel, new, done, closed, would_block, enqueued}
use stackfull.Sync.Channel.Spec.{Call, transfer, tried, shut, serve}
use stackfull.Sync.Channel.Spec
use stackfull.Sync.Channel.Refine.{view, step, run, step_refines, run_refines}
use stackfull.Sync.Channel.Wakeups.{no_lost_wakeup}
use stackfull.Sync.Channel.Watch.{Event, calls, receiver_unwinds, watch, history}

abbrev two : Channel ℕ
two = record { ring = raw 2; is_closed = false; senders = []; receivers = [] }

two-IsRing : IsRing two.ring []
two-IsRing = raw-IsRing 2 (omega arith) (omega arith)

new-two : new 2 ≡ some two
unfolding new
new-two = refl

-- A receiver waits, is notified by a send, and drains the channel after it is closed.
abbrev calls_in_order : List (Call ℕ)
calls_in_order =
    Call.recv_round 7
    ∷ Call.try_send 1
    ∷ Call.try_send 2
    ∷ Call.send_or_enqueue 3 none
    ∷ Call.send_round 3 8
    ∷ Call.recv_round 7
    ∷ Call.close
    ∷ Call.try_send 4
    ∷ Call.recv_round 7
    ∷ Call.recv_round 7
    ∷ []

spec_run :
    Spec.run (view two []) calls_in_order
    ≡ transfer enqueued none []
      ∷ tried true none (7 ∷ [])
      ∷ tried true none []
      ∷ transfer would_block none []
      ∷ transfer enqueued none []
      ∷ transfer done (some 1) (8 ∷ [])
      ∷ shut []
      ∷ tried false none []
      ∷ transfer done (some 2) []
      ∷ transfer closed none []
      ∷ []
unfolding Spec.run raw enqueue_locked
spec_run = refl

step_refines_example :
    let (r, c) = step two (Call.try_send 5) in
    let (r', q) = serve (view two []) (Call.try_send 5) in
    (r ≡ r') × (view c q.items ≡ q) × IsRing c.ring q.items
step_refines_example = step_refines two [] (Call.try_send 5) two-IsRing

run_refines_example : run two calls_in_order ≡ Spec.run (view two []) calls_in_order
run_refines_example = run_refines two [] calls_in_order two-IsRing

-- Receivers 7, 5 and 9 wait, and two sends notify the first two: 7 is unwound, the callback waiter 5
-- calls again.
abbrev events : List (Event ℕ)
events =
    calls (Call.recv_round 7)
    ∷ calls (Call.recv_or_enqueue (some (record { address = 5; is_cancelled = false })))
    ∷ calls (Call.recv_round 9)
    ∷ calls (Call.try_send 1)
    ∷ calls (Call.try_send 2)
    ∷ receiver_unwinds 7
    ∷ calls (Call.recv_or_enqueue (some (record { address = 5; is_cancelled = false })))
    ∷ []

no_lost_wakeup_example :
    let s = history (watch two) events in
    let c = s.channel in
    ((c.receivers ≡ []) ⊎ (c.ring.count ≤ length s.woken_receivers + s.lost_receivers))
    × ((c.senders ≡ [])
        ⊎ (c.ring.capacity ≤ c.ring.count + (length s.woken_senders + s.lost_senders)))
no_lost_wakeup_example = no_lost_wakeup two events two-IsRing refl refl
