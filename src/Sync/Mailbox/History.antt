-- ===== src/Sync/Mailbox/History.antt =====
-- Every closure that is accepted is taken once and in order, and none waits for a sleeping consumer.
use stackfull.Base.{ℕ, ◌≡◌, refl, ap, ◌⊎◌, Bool, true, false, none, List, [], ◌∷◌, ◌++◌, arith}
use stackfull.Sync.Mailbox.{
  System, Event, blocked, returned, posts, closes, closer_wakes, begins, consumes, spurious,
  expires, advance, history, initial,
}
use stackfull.Sync.Mailbox.Delivery.{
  InvOf, Waking, is_blocked, is_away, ends_empty, post-Inv, run_consumer-Inv, close-Inv,
  close_wakes-Inv, begin-Inv, stir-Inv, expire-Inv,
}

module _ (me : ℕ) (has_deadline : Bool) where
  advance-Inv :
      (s : System) (e : Event)
      → InvOf me has_deadline s
      → InvOf me has_deadline (advance me has_deadline s e)
  unfolding advance
  advance-Inv s (posts f) h = post-Inv me has_deadline s f h
  advance-Inv s (closes i) h = close-Inv me has_deadline s i (s.closers i) h refl
  advance-Inv s (closer_wakes i) h = close_wakes-Inv me has_deadline s i (s.closers i) h refl
  advance-Inv s begins h = begin-Inv me has_deadline s s.consumer h refl
  advance-Inv s consumes h = run_consumer-Inv me has_deadline s s.consumer h refl
  advance-Inv s spurious h = stir-Inv me has_deadline s s.consumer h refl
  advance-Inv s expires h = expire-Inv me has_deadline s s.consumer h refl

  history-Inv :
      (s : System) (es : List Event)
      → InvOf me has_deadline s
      → InvOf me has_deadline (history me has_deadline s es)
  unfolding history
  history-Inv s [] h = h
  history-Inv s (e ∷ es) h = history-Inv (advance me has_deadline s e) es (advance-Inv s e h)

  -- Whatever is posted, closed, consumed and timed out, in whatever order: the closures that the
  -- consumer has taken, followed by those in the queue, are those that were accepted, in order; a
  -- consumer that is blocked has nothing to take in an open mailbox, or has a wake to consume, or a
  -- party that closes is about to wake it; a call without a deadline ends without a closure only
  -- when the mailbox is closed and drained; and a consumer that is away has left no waker.
  pub history-IsDelivered :
      (es : List Event)
      → let s = history me has_deadline initial es in
        (s.posted ≡ s.taken ++ s.mailbox.queue)
        × (s.consumer ≡ blocked
            → ((s.mailbox.queue ≡ []) × (s.mailbox.closed ≡ false))
              ⊎ ((s.woken ≡ true) ⊎ Waking me has_deadline s))
        × (has_deadline ≡ false
            → s.consumer ≡ returned none
            → (s.mailbox.queue ≡ []) × (s.mailbox.closed ≡ true))
        × (is_away s.consumer ≡ true → s.mailbox.consumer ≡ none)
  history-IsDelivered es =
      let (h, e) = history-Inv initial es (ground arith, refl) in
      (
        e,
        λ at. h.awake (ap is_blocked at),
        λ no_end at. h.drained no_end (ap ends_empty at),
        h.clean,
      )
