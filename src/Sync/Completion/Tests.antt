-- ===== src/Sync/Completion/Tests.antt =====
-- Two producers and a consumer that blocks before either delivers.
use stackfull.Base.{
  ℕ, ◌≡◌, refl, ◌≢◌, ◌⊎◌, true, false, none, some, List, [], ◌∷◌, ◌==◌, if◌then◌else◌,
}
use stackfull.Sync.Completion.{
  publish, detach, attach, run_consumer, timed_out, run_producer, wakes, advance, blocked, Outcome,
  Report, value, error, got, produces, consumes, Event, write, initial, history,
}
use stackfull.Sync.Completion.Get.{got-IsDelivered, blocked-IsAwaited}
use stackfull.Sync.Completion.Delivery.{won}

abbrev two_reports : ℕ → Report ℕ
two_reports i = if i == 0 then value 42 else error 5

abbrev both_deliver : List Event
both_deliver =
    consumes
    ∷ consumes
    ∷ produces 1
    ∷ produces 0
    ∷ produces 1
    ∷ produces 1
    ∷ produces 1
    ∷ consumes
    ∷ consumes
    ∷ consumes
    ∷ consumes
    ∷ []

abbrev failure : Outcome ℕ
failure = record { value = 0; error = some 5; exception = none }

delivered : (history two_reports 9 false (initial 0) both_deliver).consumer ≡ got failure
unfolding history advance run_producer run_consumer attach detach publish write
delivered = refl

got-IsDelivered_example :
    let s = history two_reports 9 false (initial 0) both_deliver in
    (i : ℕ) × (won (s.producers i) ≡ true)
    × (failure ≡ write (two_reports i) (initial 0).state.outcome)
    × ((j : ℕ) → j ≢ i → won (s.producers j) ≡ false)
got-IsDelivered_example = got-IsDelivered two_reports 9 false 0 both_deliver failure delivered

blocked-IsAwaited_example :
    let s = history two_reports 9 false (initial 0) (consumes ∷ consumes ∷ []) in
    (s.consumer ≡ blocked
      → ((s.state.consumer ≡ some 9) × (s.state.is_ready ≡ false))
        ⊎ ((s.woken ≡ true) ⊎ ((i : ℕ) × (s.producers i ≡ wakes (some 9)))))
    × ((o : Outcome ℕ) → s.consumer ≡ got o → s.state.consumer ≡ none)
    × (s.consumer ≡ timed_out → s.state.consumer ≡ none)
blocked-IsAwaited_example = blocked-IsAwaited two_reports 9 false 0 (consumes ∷ consumes ∷ [])
