-- ===== src/Sync/Stream/History.antt =====
-- Any history of a stream.
use stackfull.Base.{
  ℕ, suc, ◌+◌, ◌-◌, ◌^◌, ◌≤◌, ◌<◌, ◌≡◌, refl, ap, subst, inl, inr, Bool, true, false, Option, none,
  some, List, [], ◌∷◌, arith, leb, ◌==◌, ne→==, Bool-cases, if-cases, leb→le, none≢some, length,
  length-append,
}
use stackfull.Sync.Stream.{Answer, Overflow, Stream, is_waker, attach_callback}
use stackfull.Sync.Slots.{raw}
use stackfull.Sync.Slots.Refine.{raw-IsRing}
use stackfull.Sync.Channel.{Callback}
use mathlib.Core.Option.{some-injective}
use stackfull.Sync.Stream
use stackfull.Sync.Stream.Account.{
  Log, Event, push, close, try_next, next_round, attach, detach, next_or_attach, cancel,
  IsAccounted, advance, take, history, rest-IsAccounted, take-IsAccounted,
}
use stackfull.Sync.Stream.Push.{push-IsAccounted}

module _ {ℓ} {A : Type ℓ} where
  empty_lem : (l : Log A) → IsAccounted l [] → (l.stream.ring.count == 0) ≡ true
  empty_lem l ok = ap (λ n. n == 0) ok.holds.counted

  some_lem :
      (l : Log A) (x : A) (xs : List A)
      → IsAccounted l (x ∷ xs)
      → (l.stream.ring.count == 0) ≡ false
  some_lem l x xs ok = ne→== l.stream.ring.count 0 (omega (arith, ok.holds.counted))

  -- A consumer that attaches to an empty open stream.
  attach-IsAccounted :
      (l : Log A) (w : ℕ)
      → IsAccounted l []
      → l.stream.is_closed ≡ false
      → IsAccounted (record l { stream = record l.stream { consumer = some w } }) []
  attach-IsAccounted l w ok e =
      rest-IsAccounted l [] (record l.stream { consumer = some w }) ok refl refl (inr (refl, e))

  detach-IsAccounted :
      (l : Log A) (xs : List A)
      → IsAccounted l xs
      → IsAccounted (record l { stream = record l.stream { consumer = none } }) xs
  detach-IsAccounted l xs ok =
      rest-IsAccounted l xs (record l.stream { consumer = none }) ok refl refl (inl refl)

  callback-IsAccounted :
      (l : Log A) (w : Option Callback)
      → IsAccounted l []
      → l.stream.is_closed ≡ false
      → IsAccounted (record l { stream = (attach_callback l.stream w).1 }) []
  callback-IsAccounted l none ok e = ok
  callback-IsAccounted l (some w) ok e =
      if-cases (λ (r : Answer A). IsAccounted (record l { stream = r.1 }) []) w.is_cancelled
        (λ _. ok) (λ _. attach-IsAccounted l w.address ok e)

  -- Every event keeps the account.
  advance-IsAccounted :
      (l : Log A) (xs : List A) (e : Event A)
      → IsAccounted l xs
      → length l.pushed < 2 ^ 64 - 1
      → (ys : List A) × IsAccounted (advance l e) ys
  unfolding Stream.close Stream.try_next Stream.next_round Stream.attach Stream.detach
      Stream.next_or_attach Stream.cancel
  advance-IsAccounted l xs (push v) ok small = (_, push-IsAccounted l xs v ok small)
  advance-IsAccounted l xs close ok small =
      (xs, rest-IsAccounted l xs (Stream.close l.stream).0 ok refl refl (inl refl))
  advance-IsAccounted l [] try_next ok small = ([], rw (empty_lem l ok) ok)
  advance-IsAccounted l (x ∷ xs) try_next ok small =
      (xs, rw (some_lem l x xs ok) (take-IsAccounted l x xs ok))
  advance-IsAccounted l [] (next_round w) ok small = (
    [],
    rw (empty_lem l ok) (
        if-cases (λ (r : Answer A). IsAccounted (record l { stream = r.1 }) []) l.stream.is_closed
          (λ _. ok) (attach-IsAccounted l w ok)),
  )
  advance-IsAccounted l (x ∷ xs) (next_round w) ok small =
      (xs, rw (some_lem l x xs ok) (take-IsAccounted l x xs ok))
  advance-IsAccounted l [] (attach w) ok small = (
    [],
    rw (empty_lem l ok) (
        if-cases (λ (r : Bool × Stream A). IsAccounted (record l { stream = r.1 }) [])
          l.stream.is_closed (λ _. ok) (attach-IsAccounted l w ok)),
  )
  advance-IsAccounted l (x ∷ xs) (attach w) ok small = (x ∷ xs, rw (some_lem l x xs ok) ok)
  advance-IsAccounted l xs (detach w) ok small = (
    xs,
    if-cases (λ (s : Stream A). IsAccounted (record l { stream = s }) xs)
        (is_waker l.stream.consumer w) (λ _. detach-IsAccounted l xs ok) (λ _. ok),
  )
  advance-IsAccounted l [] (next_or_attach w) ok small = (
    [],
    rw (empty_lem l ok) (
        if-cases (λ (r : Answer A). IsAccounted (record l { stream = r.1 }) []) l.stream.is_closed
          (λ _. ok) (callback-IsAccounted l w ok)),
  )
  advance-IsAccounted l (x ∷ xs) (next_or_attach w) ok small =
      (xs, rw (some_lem l x xs ok) (take-IsAccounted l x xs ok))
  advance-IsAccounted l xs (cancel w) ok small = (
    xs,
    if-cases (λ (r : Bool × Stream A × Callback). IsAccounted (record l { stream = r.1 }) xs)
        (is_waker l.stream.consumer w.address) (λ _. detach-IsAccounted l xs ok) (λ _. ok),
  )

  length-take :
      (l : Log A) (v : Option A) (s : Stream A) → length (take l v s).pushed ≤ suc (length l.pushed)
  length-take l none s = omega arith
  length-take l (some v) s = omega arith

  length-advance : (l : Log A) (e : Event A) → length (advance l e).pushed ≤ suc (length l.pushed)
  length-advance l (push v) = omega (arith, length-append l.pushed (v ∷ []))
  length-advance l close = omega arith
  length-advance l try_next = length-take l (Stream.try_next l.stream).0 _
  length-advance l (next_round w) = length-take l (Stream.next_round l.stream w).0 _
  length-advance l (attach w) = omega arith
  length-advance l (detach w) = omega arith
  length-advance l (next_or_attach w) = length-take l (Stream.next_or_attach l.stream w).0 _
  length-advance l (cancel w) = omega arith

  history-IsAccounted :
      (l : Log A) (xs : List A) (es : List (Event A))
      → IsAccounted l xs
      → length l.pushed + length es < 2 ^ 64
      → (ys : List A) × IsAccounted (history l es) ys
  unfolding history
  history-IsAccounted l xs [] ok small = (xs, ok)
  history-IsAccounted l xs (e ∷ es) ok small =
      let (ys, ok') = advance-IsAccounted l xs e ok (omega arith) in
      history-IsAccounted (advance l e) ys es ok' (omega (arith, length-advance l e))

  abbrev pub opened : Stream A → Log A
  opened s = record { stream = s; pushed = []; taken = [] }

  pub new-IsAccounted :
      (n : ℕ) (p : Overflow) (s : Stream A)
      → 1 ≤ n
      → n ≤ 2 ^ 63
      → record { ring = raw n; policy = p; is_closed = false; consumer = none; dropped = 0 } ≡ s
      → IsAccounted (opened s) []
  new-IsAccounted n p s some_room small same =
      subst (λ t. IsAccounted (opened t) []) same
        (record {
          holds = raw-IsRing n some_room small;
          in_order = tt;
          counted = refl;
          idle = inl refl;
        })

  -- After fewer than 2^64 calls on a new stream of at most 2^63 slots, the values handed out and
  -- those in its ring are some of the pushed values, in the order of the pushes, the others are what
  -- `dropped` counts, and a consumer is only set while the ring is empty and the stream open.
  pub values-IsAccounted :
      (n : ℕ) (p : Overflow) (s : Stream A) (es : List (Event A))
      → Stream.new n p ≡ some s
      → n ≤ 2 ^ 63
      → length es < 2 ^ 64
      → (xs : List A) × IsAccounted (history (opened s) es) xs
  unfolding Stream.new
  values-IsAccounted n p s es made small few = elim (Bool-cases (leb 1 n)) [
    | inl h ↦
        let same = some-injective _ _ (rw h at made) in
        history-IsAccounted (opened s) [] es (new-IsAccounted n p s (leb→le 1 n h) small same)
          (omega arith)
    | inr h ↦ absurd (none≢some s (rw h at made))
  ]
