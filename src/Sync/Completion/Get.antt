-- ===== src/Sync/Completion/Get.antt =====
-- What every history of the parties comes to.
use stackfull.Base.{
  ℕ, ◌≡◌, refl, ap, subst, ◌∙◌, ◌≢◌, ◌⊎◌, Bool, true, false, none, some, List, [], ◌∷◌, arith,
}
use stackfull.Sync.Completion.Awaited.{knows}
use stackfull.Sync.Completion.Delivery.{Stage-ready}
use stackfull.Sync.Completion.{wakes, timed_out, stores, Producer}
use stackfull.Sync.Completion.Delivery.{
  the_winner, WinnerAt, consumer-Stage, stir-Stage, expire-Stage,
}
use stackfull.Sync.Completion.Awaited.{stir-Inv, expire-Inv, is_blocked, is_away}
use stackfull.Sync.Completion.{
  Outcome, Report, got, blocked, write, System, Event, produces, consumes, spurious, expires,
  advance, history, initial,
}
use stackfull.Sync.Completion.Delivery.{won, StageOf, producer-Stage, nobody}
use stackfull.Sync.Completion.Awaited.{InvOf, consumer-Inv, producer-Inv}

module _ {ℓ} {A : Type ℓ} (reports : ℕ → Report A) (me : ℕ) (has_deadline : Bool) (blank : A) where
  abbrev Both : System A → Type ℓ
  Both s = StageOf reports me has_deadline blank s × InvOf reports me has_deadline s

  advance-Both : (s : System A) (e : Event) → Both s → Both (advance reports me has_deadline s e)
  unfolding advance
  advance-Both s (produces i) (stage, h) = (
    producer-Stage reports me has_deadline blank s i _ stage refl,
    producer-Inv reports me has_deadline s i _ h refl (early i (s.producers i) refl),
  )
    where
      early : (i : ℕ) (p : Producer) → s.producers i ≡ p → p ≡ stores → s.state.is_ready ≡ false
      early i p at e =
          let (claimed, winner, alone) =
            the_winner reports me has_deadline blank s.producers s.state i stage
              (ap won (at ∙ e)) in
          (subst (λ q. WinnerAt reports me has_deadline blank i q s.state) (at ∙ e) winner).0
  advance-Both s consumes (stage, h) = (
    consumer-Stage reports me has_deadline blank s s.consumer stage,
    consumer-Inv reports me has_deadline s s.consumer h refl,
  )
  advance-Both s spurious (stage, h) = (
    stir-Stage reports me has_deadline blank s s.consumer stage,
    stir-Inv reports me has_deadline s s.consumer h refl,
  )
  advance-Both s expires (stage, h) = (
    expire-Stage reports me has_deadline blank s s.consumer stage,
    expire-Inv reports me has_deadline s s.consumer h refl,
  )

  history-Both :
      (s : System A) (es : List Event) → Both s → Both (history reports me has_deadline s es)
  unfolding history
  history-Both s [] h = h
  history-Both s (e ∷ es) h =
      history-Both (advance reports me has_deadline s e) es (advance-Both s e h)

  reached : (es : List Event) → Both (history reports me has_deadline (initial blank) es)
  reached es = history-Both (initial blank) es (nobody refl refl refl (λ j. refl), ground arith)

  -- Whatever the producers, the consumer, the deadline and stray wakes do, and in whatever order:
  -- what `get` or `getUntil` returns, other than after a timeout, is what one producer was to
  -- deliver, and every other producer has been refused or has not claimed the result.
  pub got-IsDelivered :
      (es : List Event) (o : Outcome A)
      → let s = history reports me has_deadline (initial blank) es in
        s.consumer ≡ got o
        → (i : ℕ) × (won (s.producers i) ≡ true)
          × (o ≡ write (reports i) (initial blank).state.outcome)
          × ((j : ℕ) → j ≢ i → won (s.producers j) ≡ false)
  got-IsDelivered es o at =
      let (stage, h) = reached es in
      let (i, has_won, e, alone) =
        Stage-ready reports me has_deadline blank _ _ stage (h.known (ap knows at)) in
      (i, has_won, h.same o at ∙ e, alone)

  -- In every such history, a consumer that is blocked has its waker in place and no result, or has
  -- a wake to consume, or some producer is about to wake it; and what has returned has left no
  -- waker behind.
  pub blocked-IsAwaited :
      (es : List Event)
      → let s = history reports me has_deadline (initial blank) es in
        (s.consumer ≡ blocked
          → ((s.state.consumer ≡ some me) × (s.state.is_ready ≡ false))
            ⊎ ((s.woken ≡ true) ⊎ ((i : ℕ) × (s.producers i ≡ wakes (some me)))))
        × ((o : Outcome A) → s.consumer ≡ got o → s.state.consumer ≡ none)
        × (s.consumer ≡ timed_out → s.state.consumer ≡ none)
  blocked-IsAwaited es =
      let h = (reached es).1 in
      (
        λ at. h.awake (ap is_blocked at),
        λ o at. h.clean (ap is_away at),
        λ at. h.clean (ap is_away at),
      )
