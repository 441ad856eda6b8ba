-- ===== src/Sched/Parker/Tests.antt =====
-- Runs of a parker, and the theorem at one of them.
use stackfull.Base.{
  ◌+◌, ◌≤◌, ◌<◌, ◌≡◌, refl, ◌⊎◌, true, false, List, [], ◌∷◌, ◌==◌, if◌then◌else◌, sum_by,
}
use stackfull.Sched.Parker.{
  k_notified, k_parked, k_empty, asleep, returned, run_owner, run_unparker, Event, begins, moves,
  expires, unparks, runs, advance, history, initial,
}
use stackfull.Sched.Parker.Token.{waking, is_waiting, thrice, token_is_taken}

-- The owner sleeps, and one thread has set the token and not yet made its futex call.
abbrev sleeps_then_token : List Event
sleeps_then_token = begins false ∷ moves ∷ moves ∷ moves ∷ unparks 0 ∷ runs 0 ∷ []

sleeper : (history (initial 1) sleeps_then_token).owner ≡ asleep
unfolding history advance run_owner run_unparker
sleeper = refl

token_is_taken_example :
    let s = history (initial 1) sleeps_then_token in
    (s.taken + (if s.state == k_notified then 1 else 0) ≤ s.unparked)
    × (s.state ≡ k_notified → is_waiting s.owner ≡ true → (thrice s).owner ≡ returned true)
    × (s.owner ≡ asleep → (s.state ≡ k_parked) ⊎ (0 < sum_by waking s.unparkers))
token_is_taken_example = token_is_taken 1 sleeps_then_token

-- `parkFor` gives up, a thread unparks the owner, and the last store of `parkFor` erases the token:
-- the call returns false, and a `park` after it would sleep.
abbrev unpark_after_giving_up : List Event
unpark_after_giving_up =
    begins true ∷ moves ∷ moves ∷ expires ∷ moves ∷ unparks 0 ∷ runs 0 ∷ moves ∷ []

token_is_lost :
    let s = history (initial 1) unpark_after_giving_up in
    (s.owner ≡ returned false) × (s.state ≡ k_empty) × (s.unparked ≡ 1) × (s.taken ≡ 0)
unfolding history advance run_owner run_unparker
token_is_lost = (refl, refl, refl, refl)
