-- ===== src/Sync/Mailbox/Tests.antt =====
-- A consumer that blocks, two closures, and a close.
use stackfull.Base.{◌≡◌, refl, ◌⊎◌, true, false, none, List, [], ◌∷◌, ◌++◌}
use stackfull.Sync.Mailbox.{detach}
use stackfull.Sync.Mailbox.{
  detach, run_consumer, close_wakes, close, post, advance, blocked, Event, posts, closes,
  closer_wakes, begins, consumes, history, initial, System, returned,
}
use stackfull.Sync.Mailbox.History.{history-IsDelivered}
use stackfull.Sync.Mailbox.Delivery.{Waking, is_away}

abbrev events : List Event
events =
    begins
    ∷ consumes
    ∷ posts 4
    ∷ posts 5
    ∷ consumes
    ∷ consumes
    ∷ consumes
    ∷ begins
    ∷ consumes
    ∷ consumes
    ∷ closes 0
    ∷ posts 6
    ∷ closer_wakes 0
    ∷ begins
    ∷ consumes
    ∷ consumes
    ∷ []

abbrev after : System
after = history 9 false initial events

ran : (after.taken ≡ 4 ∷ 5 ∷ []) × (after.consumer ≡ returned none)
unfolding history advance post close close_wakes run_consumer detach
ran = (refl, refl)

history-IsDelivered_example :
    (after.posted ≡ after.taken ++ after.mailbox.queue)
    × (after.consumer ≡ blocked
        → ((after.mailbox.queue ≡ []) × (after.mailbox.closed ≡ false))
          ⊎ ((after.woken ≡ true) ⊎ Waking 9 false after))
    × (false ≡ false
        → after.consumer ≡ returned none
        → (after.mailbox.queue ≡ []) × (after.mailbox.closed ≡ true))
    × (is_away after.consumer ≡ true → after.mailbox.consumer ≡ none)
history-IsDelivered_example = history-IsDelivered 9 false events
