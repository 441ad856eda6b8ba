-- ===== src/Sync/Channel/Refine.antt =====
-- No sequence of calls tells a channel from the bounded queue of its values.
use stackfull.Base.{
  ℕ, ◌≤◌, ◌≡◌, refl, ap, ap₂, ◌∙◌, inl, inr, true, false, not, Option, none, some, List, [], ◌∷◌,
  arith, ltb, ◌==◌, ltb→lt, ne→==, Bool-cases, length,
}
use stackfull.Sync.Slots.{Slots}
use stackfull.Sync.Slots.Refine.{
  IsRing, push_locked-IsRing, pop_locked-IsRing, capacity-push_locked, capacity-pop_locked,
}
use stackfull.Sync.Channel.{
  Channel, Outcome, Callback, deliver, send_round, try_send, recv_round, try_recv, send_or_enqueue,
  recv_or_enqueue, cancel_send, cancel_recv, close, first_waiter, done,
}
use stackfull.Sync.Channel.Spec
use stackfull.Sync.Channel.Spec.{Queue, Call, Reply, transfer, tried, withdrawn, shut, serve}

module _ {ℓ} {A : Type ℓ} where
  abbrev pub view : Channel A → List A → Queue A
  view c xs = record {
    capacity = c.ring.capacity;
    items = xs;
    is_closed = c.is_closed;
    senders = c.senders;
    receivers = c.receivers;
  }

  abbrev sends : Outcome A → Reply A × Channel A
  sends (r, c, ws) = (transfer r none ws, c)

  abbrev receives : Option A × Outcome A → Reply A × Channel A
  receives (v, (r, c, ws)) = (transfer r v ws, c)

  -- A call on the channel itself.
  abbrev pub step : Channel A → Call A → Reply A × Channel A
  step c (Call.send_round v w) = sends (send_round c v w)
  step c (Call.try_send v) = let (r, c', ws) = try_send c v in (tried r none ws, c')
  step c (Call.send_or_enqueue v w) = sends (send_or_enqueue c v w)
  step c (Call.recv_round w) = receives (recv_round c w)
  step c Call.try_recv = let (v, r, c', ws) = try_recv c in (tried r v ws, c')
  step c (Call.recv_or_enqueue w) = receives (recv_or_enqueue c w)
  step c (Call.cancel_send w) = let (r, c', w') = cancel_send c w in (withdrawn r w', c')
  step c (Call.cancel_recv w) = let (r, c', w') = cancel_recv c w in (withdrawn r w', c')
  step c Call.close = let (c', ws) = close c in (shut ws, c')

  pub run : Channel A → List (Call A) → List (Reply A)
  run c [] = []
  run c (k ∷ ks) = let (r, c') = step c k in r ∷ run c' ks

  -- The channel step `s` is the queue step `t`.
  abbrev Agree : Reply A × Channel A → Reply A × Queue A → Type ℓ
  Agree s t = (s.0 ≡ t.0) × (view s.1 t.1.items ≡ t.1) × IsRing s.1.ring t.1.items

  deliver-Agree :
      (c : Channel A) (x : A) (xs : List A) (ok : IsRing c.ring (x ∷ xs))
      (reply : Option A → Reply A)
      → Agree
          (reply (deliver c).0, (deliver c).1.1)
          (reply (some x), Spec.received (view c (x ∷ xs)) xs)
  deliver-Agree c x xs ok reply =
      let (out, kept) = pop_locked-IsRing x ok in
      (ap reply out, rw (capacity-pop_locked c.ring), kept)

  -- The tests of the code, in terms of the values.
  room_lem :
      {r : Slots A} {xs : List A}
      → IsRing r xs
      → ltb r.count r.capacity ≡ ltb (length xs) r.capacity
  room_lem {r} ok = ap (λ n. ltb n r.capacity) ok.counted

  full_lem :
      {r : Slots A} {xs : List A}
      → IsRing r xs
      → (r.count == r.capacity) ≡ not (ltb r.count r.capacity)
  full_lem {r} ok = at_most r.count r.capacity ok.fits
    where
      at_most : (n m : ℕ) → n ≤ m → (n == m) ≡ not (ltb n m)
      at_most n m h = ground arith

  empty_lem : {r : Slots A} → IsRing r [] → (r.count == 0) ≡ true
  empty_lem {r} ok = ap (λ n. n == 0) ok.counted

  some_lem : {r : Slots A} {x : A} {xs : List A} → IsRing r (x ∷ xs) → (r.count == 0) ≡ false
  some_lem {r} ok = ne→== r.count 0 (omega (arith, ok.counted))

  module _ (c : Channel A) (xs : List A) (ok : IsRing c.ring xs) where
    send_round-Agree :
        (v : A) (w : ℕ) → let k = Call.send_round v w in Agree (step c k) (serve (view c xs) k)
    unfolding send_round
    send_round-Agree v w = elim (Bool-cases c.is_closed) [
      | inl e ↦ rw (e, send_round) (refl, refl, ok)
      | inr e ↦ elim (Bool-cases (ltb c.ring.count c.ring.capacity)) [
        | inl h ↦
            rw (← room_lem ok, e, h)
              (refl, rw (capacity-push_locked c.ring v), (push_locked-IsRing v ok (ltb→lt _ _ h)).1)
        | inr h ↦ rw (← room_lem ok, e, h) (refl, refl, ok)
      ]
    ]

    try_send-Agree : (v : A) → let k = Call.try_send v in Agree (step c k) (serve (view c xs) k)
    unfolding try_send
    try_send-Agree v = elim (Bool-cases c.is_closed) [
      | inl e ↦ rw (e, try_send) (refl, refl, ok)
      | inr e ↦ elim (Bool-cases (ltb c.ring.count c.ring.capacity)) [
        | inl h ↦
            rw (← room_lem ok, full_lem ok, e, h)
              (refl, rw (capacity-push_locked c.ring v), (push_locked-IsRing v ok (ltb→lt _ _ h)).1)
        | inr h ↦ rw (← room_lem ok, full_lem ok, e, h) (refl, refl, ok)
      ]
    ]

    send_or_enqueue-Agree :
        (v : A) (w : Option Callback)
        → let k = Call.send_or_enqueue v w in Agree (step c k) (serve (view c xs) k)
    unfolding send_or_enqueue
    send_or_enqueue-Agree v w = elim (Bool-cases c.is_closed) [
      | inl e ↦ rw (e, send_or_enqueue) (refl, refl, ok)
      | inr e ↦ elim (Bool-cases (ltb c.ring.count c.ring.capacity)) [
        | inl h ↦
            rw (← room_lem ok, e, h)
              (refl, rw (capacity-push_locked c.ring v), (push_locked-IsRing v ok (ltb→lt _ _ h)).1)
        | inr h ↦ rw (← room_lem ok, e, h) (refl, refl, ok)
      ]
    ]

  recv_round-Agree :
      (c : Channel A) (xs : List A) (w : ℕ)
      → IsRing c.ring xs
      → let k = Call.recv_round w in Agree (step c k) (serve (view c xs) k)
  unfolding recv_round
  recv_round-Agree c [] w ok = elim (Bool-cases c.is_closed) [
    | inl e ↦ rw (empty_lem ok, e) (refl, refl, ok)
    | inr e ↦ rw (empty_lem ok, e) (refl, refl, ok)
  ]
  recv_round-Agree c (x ∷ xs) w ok =
      rw (some_lem ok) (deliver-Agree c x xs ok (λ v. transfer done v (first_waiter c.senders)))

  try_recv-Agree :
      (c : Channel A) (xs : List A)
      → IsRing c.ring xs
      → Agree (step c Call.try_recv) (serve (view c xs) Call.try_recv)
  unfolding try_recv
  try_recv-Agree c [] ok = rw (empty_lem ok) (refl, refl, ok)
  try_recv-Agree c (x ∷ xs) ok =
      rw (some_lem ok) (deliver-Agree c x xs ok (λ v. tried true v (first_waiter c.senders)))

  recv_or_enqueue-Agree :
      (c : Channel A) (xs : List A) (w : Option Callback)
      → IsRing c.ring xs
      → let k = Call.recv_or_enqueue w in Agree (step c k) (serve (view c xs) k)
  unfolding recv_or_enqueue
  recv_or_enqueue-Agree c [] w ok = elim (Bool-cases c.is_closed) [
    | inl e ↦ rw (empty_lem ok, e) (refl, refl, ok)
    | inr e ↦ rw (empty_lem ok, e) (refl, refl, ok)
  ]
  recv_or_enqueue-Agree c (x ∷ xs) w ok =
      rw (some_lem ok) (deliver-Agree c x xs ok (λ v. transfer done v (first_waiter c.senders)))

  -- Every call replies as the queue of the values does, and leaves the channel holding that queue.
  pub step_refines :
      (c : Channel A) (xs : List A) (k : Call A)
      → IsRing c.ring xs
      → let (r, c') = step c k in
        let (r', q) = serve (view c xs) k in
        (r ≡ r') × (view c' q.items ≡ q) × IsRing c'.ring q.items
  unfolding cancel_send cancel_recv close
  step_refines c xs (Call.send_round v w) ok = send_round-Agree c xs ok v w
  step_refines c xs (Call.try_send v) ok = try_send-Agree c xs ok v
  step_refines c xs (Call.send_or_enqueue v w) ok = send_or_enqueue-Agree c xs ok v w
  step_refines c xs (Call.recv_round w) ok = recv_round-Agree c xs w ok
  step_refines c xs Call.try_recv ok = try_recv-Agree c xs ok
  step_refines c xs (Call.recv_or_enqueue w) ok = recv_or_enqueue-Agree c xs w ok
  step_refines c xs (Call.cancel_send w) ok = (refl, refl, ok)
  step_refines c xs (Call.cancel_recv w) ok = (refl, refl, ok)
  step_refines c xs Call.close ok = (refl, refl, ok)

  -- A channel whose ring holds the values `xs` replies to every sequence of calls as the bounded
  -- queue of these values does.
  pub run_refines :
      (c : Channel A) (xs : List A) (ks : List (Call A))
      → IsRing c.ring xs
      → run c ks ≡ Spec.run (view c xs) ks
  unfolding run Spec.run
  run_refines c xs [] ok = refl
  run_refines c xs (k ∷ ks) ok =
      let (same, kept, ok') = step_refines c xs k ok in
      ap₂ ◌∷◌ same (
        run_refines (step c k).1 (serve (view c xs) k).1.items ks ok'
        ∙ ap (λ q. Spec.run q ks) kept)
