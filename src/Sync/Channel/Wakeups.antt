-- ===== src/Sync/Channel/Wakeups.antt =====
-- No wakeup is lost: a waiter sleeps beside work that it could do only while a notified waiter is
-- still on its way to that work.
use stackfull.Base.{
  ℕ, ◌+◌, ◌≤◌, ◌≡◌, refl, sym, ap, subst, ◌⊎◌, inl, inr, false, Option, none, some, List, [], ◌∷◌,
  ◌++◌, arith, if◌then◌else◌, if-cases, length, length-append,
}
use stackfull.Sync.Channel.{Callback, Channel, first_waiter, unwind_send, unwind_recv}
use stackfull.Sync.WaitList.Seg.{contains}
use mathlib.Core.Path.{subst₂}
use stackfull.Sync.Slots.Refine.{IsRing}
use stackfull.Sync.Channel.Spec.{Queue, Call, serve}
use stackfull.Sync.Channel.Spec
use stackfull.Sync.Channel.Refine.{view, step, step_refines}
use stackfull.Sync.Channel.Watch.{
  Watched, Event, calls, receiver_unwinds, sender_unwinds, without, IsLeft, remove-on_way,
  without-IsLeft, appended, nobody_left, notified, is_send, is_recv, receiver, sender, call_on,
  advance, history, watch,
}

List-cases {ℓ} : {A : Type ℓ} (xs : List A) → (xs ≡ []) ⊎ ((x : A) × (r : List A) × (xs ≡ x ∷ r))
List-cases [] = inl refl
List-cases (x ∷ r) = inr (x, r, refl)

module _ {ℓ} {A : Type ℓ} where
  -- As many notified waiters are on their way as there is work that a sleeper could do.
  record Served (q : Queue A) (wr ws : ℕ) : Type ℓ where
    receivers_served : (q.receivers ≡ []) ⊎ (length q.items ≤ wr)
    senders_served : (q.senders ≡ []) ⊎ (q.capacity ≤ length q.items + ws)
    shut_empty : (q.is_closed ≡ false) ⊎ (q.receivers ≡ []) × (q.senders ≡ [])

  abbrev After : Queue A → Call A → ℕ → ℕ → Type ℓ
  After q k wr ws =
      let (r, q') = serve q k in
      Served q' (if is_send k then wr + length (notified r) else wr)
        (if is_recv k then ws + length (notified r) else ws)

  -- A value taken: a receiver's way is over, or nobody's, and the first sender is notified.
  taken-Served :
      (q : Queue A) (x : A) (xs : List A) (wr wr' ws : ℕ)
      → q.items ≡ x ∷ xs
      → wr ≤ wr' + 1
      → Served q wr ws
      → Served
          (Spec.received (record q { items = x ∷ xs }) xs)
          wr'
          (ws + length (first_waiter q.senders))
  taken-Served q x xs wr wr' ws e le h = let n = ap length e in grind arith

  -- A receive by a notified waiter, or by anybody: `wr'` receivers are left on their way.
  recv_round-Served :
      (q : Queue A) (w wr wr' ws : ℕ)
      → wr ≤ wr' + 1
      → Served q wr ws
      → After q (Call.recv_round w) wr' ws
  recv_round-Served q w wr wr' ws le h = elim (List-cases q.items) [
    | inl e ↦ let n = ap length e in rw e (grind (arith, length-append))
    | inr (x, xs, e) ↦ rw e (taken-Served q x xs wr wr' ws e le h)
  ]

  try_recv-Served : (q : Queue A) (wr ws : ℕ) → Served q wr ws → After q Call.try_recv wr ws
  try_recv-Served q wr ws h = elim (List-cases q.items) [
    | inl e ↦ let n = ap length e in rw e (grind arith)
    | inr (x, xs, e) ↦ rw e (taken-Served q x xs wr wr ws e (omega arith) h)
  ]

  recv_or_enqueue-Served :
      (q : Queue A) (w : Option Callback) (wr wr' ws : ℕ)
      → IsLeft (receiver {A = A} (Call.recv_or_enqueue w)) wr wr'
      → Served q wr ws
      → After q (Call.recv_or_enqueue w) wr' ws
  recv_or_enqueue-Served q none wr wr' ws le h = elim (List-cases q.items) [
    | inl e ↦ let n = ap length e in rw e (grind arith)
    | inr (x, xs, e) ↦ rw e (taken-Served q x xs wr wr' ws e (omega arith) h)
  ]
  recv_or_enqueue-Served q (some w) wr wr' ws le h = elim (List-cases q.items) [
    | inl e ↦ let n = ap length e in rw e (grind (arith, length-append))
    | inr (x, xs, e) ↦ rw e (taken-Served q x xs wr wr' ws e le h)
  ]

  more-Served :
      (q : Queue A) (wr ws wr' ws' : ℕ) → wr ≤ wr' → ws ≤ ws' → Served q wr ws → Served q wr' ws'
  more-Served q wr ws wr' ws' le le' h = grind arith

  serve-Served :
      (q : Queue A) (k : Call A) (wr ws wr' ws' : ℕ)
      → IsLeft (receiver k) wr wr'
      → IsLeft (sender k) ws ws'
      → Served q wr ws
      → After q k wr' ws'
  serve-Served q (Call.send_round v w) wr ws wr' ws' le le' h = grind (arith, length-append)
  serve-Served q (Call.try_send v) wr ws wr' ws' le le' h = grind (arith, length-append)
  serve-Served q (Call.send_or_enqueue v none) wr ws wr' ws' le le' h = grind (arith, length-append)
  serve-Served q (Call.send_or_enqueue v (some w)) wr ws wr' ws' le le' h =
      grind (arith, length-append)
  serve-Served q (Call.recv_round w) wr ws wr' ws' le le' h =
      recv_round-Served q w wr wr' ws' le (more-Served q wr ws wr ws' (omega arith) le' h)
  serve-Served q Call.try_recv wr ws wr' ws' le le' h =
      try_recv-Served q wr' ws' (more-Served q wr ws wr' ws' le le' h)
  serve-Served q (Call.recv_or_enqueue w) wr ws wr' ws' le le' h =
      recv_or_enqueue-Served q w wr wr' ws' le (more-Served q wr ws wr ws' (omega arith) le' h)
  serve-Served q (Call.cancel_send w) wr ws wr' ws' le le' h = grind arith
  serve-Served q (Call.cancel_recv w) wr ws wr' ws' le le' h = grind arith
  serve-Served q Call.close wr ws wr' ws' le le' h = grind arith

  abbrev receivers_due : Watched A → ℕ
  receivers_due s = length s.woken_receivers + s.lost_receivers

  abbrev senders_due : Watched A → ℕ
  senders_due s = length s.woken_senders + s.lost_senders

  -- A watched channel that holds some values, and is served.
  abbrev Sound : Watched A → Type ℓ
  Sound s =
      (xs : List A) × IsRing s.channel.ring xs
      × Served (view s.channel xs) (receivers_due s) (senders_due s)

  call-Sound : (s : Watched A) (k : Call A) → Sound s → Sound (call_on s k)
  call-Sound s k (xs, ok, h) =
      let (same, kept, ok') = step_refines s.channel xs k ok in
      let (r, q) = serve (view s.channel xs) k in
      let (r', c) = step s.channel k in
      let wr = without s.woken_receivers (receiver k) in
      let ws = without s.woken_senders (sender k) in
      let after : Served q
          (if is_send k
            then length wr + s.lost_receivers + length (notified r)
            else length wr + s.lost_receivers)
          (if is_recv k
            then length ws + s.lost_senders + length (notified r)
            else length ws + s.lost_senders) =
        serve-Served (view s.channel xs) k _ _ _ _ (without-IsLeft (receiver k) _ _)
          (without-IsLeft (sender k) _ _) h in
      let after' =
        subst₂ (Served q) (appended (is_send k) wr (notified r) s.lost_receivers)
          (appended (is_recv k) ws (notified r) s.lost_senders) after in
      (
        q.items,
        ok',
        subst₂
            (λ v r.
              Served v (length (if is_send k then wr ++ notified r else wr) + s.lost_receivers)
                (length (if is_recv k then ws ++ notified r else ws) + s.lost_senders))
            (sym kept) (sym same) after',
      )

  unwind_recv-Served :
      (c : Channel A) (xs : List A) (w wr ws : ℕ)
      → Served (view c xs) wr ws
      → Served (view (unwind_recv c w) xs) wr ws
  unfolding unwind_recv
  unwind_recv-Served c xs w wr ws h =
      if-cases (λ c'. Served (view c' xs) wr ws) (contains c.receivers w)
        (λ _. grind (arith, nobody_left c.receivers w)) (λ _. h)

  unwind_send-Served :
      (c : Channel A) (xs : List A) (w wr ws : ℕ)
      → Served (view c xs) wr ws
      → Served (view (unwind_send c w) xs) wr ws
  unfolding unwind_send
  unwind_send-Served c xs w wr ws h =
      if-cases (λ c'. Served (view c' xs) wr ws) (contains c.senders w)
        (λ _. grind (arith, nobody_left c.senders w)) (λ _. h)

  unwind_recv-ring : (c : Channel A) (w : ℕ) → (unwind_recv c w).ring ≡ c.ring
  unfolding unwind_recv
  unwind_recv-ring c w =
      if-cases (λ (c' : Channel A). c'.ring ≡ c.ring) (contains c.receivers w) (λ _. refl)
        (λ _. refl)

  unwind_send-ring : (c : Channel A) (w : ℕ) → (unwind_send c w).ring ≡ c.ring
  unfolding unwind_send
  unwind_send-ring c w =
      if-cases (λ (c' : Channel A). c'.ring ≡ c.ring) (contains c.senders w) (λ _. refl) (λ _. refl)

  advance-Sound : (s : Watched A) (e : Event A) → Sound s → Sound (advance s e)
  advance-Sound s (calls k) h = call-Sound s k h
  advance-Sound s (receiver_unwinds w) (xs, ok, h) =
      let n = remove-on_way s.woken_receivers w in
      (
        xs,
        subst (λ r. IsRing r xs) (sym (unwind_recv-ring s.channel w)) ok,
        more-Served (view (unwind_recv s.channel w) xs) _ _ _ _ (omega (arith, n)) (omega arith)
            (unwind_recv-Served s.channel xs w _ _ h),
      )
  advance-Sound s (sender_unwinds w) (xs, ok, h) =
      let n = remove-on_way s.woken_senders w in
      (
        xs,
        subst (λ r. IsRing r xs) (sym (unwind_send-ring s.channel w)) ok,
        more-Served (view (unwind_send s.channel w) xs) _ _ _ _ (omega arith) (omega (arith, n))
            (unwind_send-Served s.channel xs w _ _ h),
      )

  history-Sound : (s : Watched A) (es : List (Event A)) → Sound s → Sound (history s es)
  unfolding history
  history-Sound s [] h = h
  history-Sound s (e ∷ es) h = history-Sound (advance s e) es (advance-Sound s e h)

  -- After any history of a new channel, calls by anybody, the next calls of notified waiters and
  -- forced unwinds included: receivers sleep beside buffered values only while at least as many
  -- notified receivers have not yet gone round their loop, or called again with their callback, or
  -- were unwound in their wait after they had been notified; and senders sleep beside free slots
  -- only while as many notified senders have not, or were.
  pub no_lost_wakeup :
      (c : Channel A) (es : List (Event A))
      → IsRing c.ring []
      → c.senders ≡ []
      → c.receivers ≡ []
      → let s = history (watch c) es in
        let c' = s.channel in
        ((c'.receivers ≡ []) ⊎ (c'.ring.count ≤ length s.woken_receivers + s.lost_receivers))
        × ((c'.senders ≡ [])
            ⊎ (c'.ring.capacity ≤ c'.ring.count + (length s.woken_senders + s.lost_senders)))
  no_lost_wakeup c es ok no_senders no_receivers =
      let (xs, ok', h) = history-Sound (watch c) es (
        [],
        ok,
        record {
          receivers_served = inl no_receivers;
          senders_served = inl no_senders;
          shut_empty = inr (no_receivers, no_senders);
        },
      ) in
      let n = ok'.counted in
      (
        elim h.receivers_served [ inl e ↦ inl e | inr l ↦ inr (omega (arith, n)) ],
        elim h.senders_served [ inl e ↦ inl e | inr l ↦ inr (omega (arith, n)) ],
      )
