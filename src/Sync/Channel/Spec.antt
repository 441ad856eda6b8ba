-- ===== src/Sync/Channel/Spec.antt =====
-- What a channel promises: a bounded queue of the values sent and not yet received, oldest first.
use stackfull.Base.{
  ℕ, Bool, true, false, Option, none, some, List, [], ◌∷◌, ◌++◌, ltb, if◌then◌else◌, length,
}
use stackfull.Sync.Channel.{
  TransferResult, done, closed, enqueued, Callback, first_waiter, behind_first, enqueue_locked,
  detach_all, cancel_in,
}

pub record Queue {ℓ} (A : Type ℓ) : Type ℓ where
  pub capacity : ℕ
  pub items : List A
  pub is_closed : Bool
  pub senders : List ℕ
  pub receivers : List ℕ

-- The calls that a channel serves. A round is one pass of a blocking call's loop.
pub data Call {ℓ} (A : Type ℓ) : Type ℓ where
  send_round : A → ℕ → Call A
  try_send : A → Call A
  send_or_enqueue : A → Option Callback → Call A
  recv_round : ℕ → Call A
  try_recv : Call A
  recv_or_enqueue : Option Callback → Call A
  cancel_send cancel_recv : Callback → Call A
  close : Call A

-- What a call returns, the value that it hands out, and whom it notifies.
pub data Reply {ℓ} (A : Type ℓ) : Type ℓ where
  transfer : TransferResult → Option A → List ℕ → Reply A
  tried : Bool → Option A → List ℕ → Reply A
  withdrawn : Bool → Callback → Reply A
  shut : List ℕ → Reply A

module _ {ℓ} {A : Type ℓ} where
  abbrev pub sent : Queue A → A → Queue A
  sent q v = record q { items = q.items ++ v ∷ []; receivers = behind_first q.receivers }

  abbrev pub received : Queue A → List A → Queue A
  received q rest = record q { items = rest; senders = behind_first q.senders }

  -- A send: refused once closed, appended if there is room, and else what `wait` says.
  abbrev pub offer :
      Queue A → A → Reply A → Reply A × Queue A → Reply A × Queue A → Reply A × Queue A
  offer q v yes_reply refused waits =
      if q.is_closed
      then refused
      else if ltb (length q.items) q.capacity
      then (yes_reply, sent q v)
      else waits

  abbrev pub enqueue_sender : Queue A → Option Callback → Reply A × Queue A
  enqueue_sender q w =
      let (r, ws) = enqueue_locked q.senders w in (transfer r none [], record q { senders = ws })

  abbrev pub enqueue_receiver : Queue A → Option Callback → Reply A × Queue A
  enqueue_receiver q w =
      let (r, ws) = enqueue_locked q.receivers w in
      (transfer r none [], record q { receivers = ws })

  -- A receive takes the oldest value; on an empty queue the second argument says what happens.
  abbrev pub take : Queue A → List A → Reply A × Queue A → (A → Reply A) → Reply A × Queue A
  take q [] waits reply = waits
  take q (x ∷ rest) waits reply = (reply x, received q rest)

  abbrev pub drained : Queue A → Reply A × Queue A → Reply A × Queue A
  drained q waits = if q.is_closed then (transfer closed none [], q) else waits

  abbrev pub serve : Queue A → Call A → Reply A × Queue A
  serve q (send_round v w) =
      offer q v (transfer done none (first_waiter q.receivers)) (transfer closed none [], q)
        (transfer enqueued none [], record q { senders = q.senders ++ w ∷ [] })
  serve q (try_send v) =
      offer q v (tried true none (first_waiter q.receivers)) (tried false none [], q)
        (tried false none [], q)
  serve q (send_or_enqueue v w) =
      offer q v (transfer done none (first_waiter q.receivers)) (transfer closed none [], q)
        (enqueue_sender q w)
  serve q (recv_round w) =
      take q q.items
        (drained q (transfer enqueued none [], record q { receivers = q.receivers ++ w ∷ [] }))
        (λ x. transfer done (some x) (first_waiter q.senders))
  serve q try_recv =
      take q q.items (tried false none [], q) (λ x. tried true (some x) (first_waiter q.senders))
  serve q (recv_or_enqueue w) =
      take q q.items (drained q (enqueue_receiver q w))
        (λ x. transfer done (some x) (first_waiter q.senders))
  serve q (cancel_send w) =
      let (queued, ws, w') = cancel_in q.senders w in
      (withdrawn queued w', record q { senders = ws })
  serve q (cancel_recv w) =
      let (queued, ws, w') = cancel_in q.receivers w in
      (withdrawn queued w', record q { receivers = ws })
  serve q close = (
    shut (detach_all q.receivers (detach_all q.senders [])),
    record q { is_closed = true; senders = []; receivers = [] },
  )

  unfoldable pub run : Queue A → List (Call A) → List (Reply A)
  run q [] = []
  run q (c ∷ cs) = let (r, q') = serve q c in r ∷ run q' cs
