-- ===== src/Sched/Join/Tests.antt =====
-- A run of a join that blocks, and the theorems at it.
use stackfull.Base.{
  ℕ, ◌+◌, ◌≡◌, refl, sym, ap, ◌∙◌, ◌≢◌, true, false, Option, some, List, [], ◌∷◌, ◌++◌, ◌==◌,
  if◌then◌else◌,
}
use mathlib.Core.Bool.{false≢true}
use stackfull.Sched.Join.{
  Event, finishes, proceeds, joins, history, advance, run_finisher, run_owner, release, finished,
  holds, joined, blocked,
}
use stackfull.Sched.Join.Shared.{is_blocked, shares_finisher, shares_owner}
use stackfull.Sched.Join.Outcome.{
  after, state_freed_once, join_gets_outcome, join_returns, Ends, proceed,
}

-- The task ends with exception 5 after its owner has blocked.
abbrev blocks_first : List Event
blocks_first =
    joins ∷ proceeds ∷ proceeds ∷ proceeds ∷ finishes ∷ finishes ∷ finishes ∷ finishes ∷ finishes
    ∷ []

abbrev returns_then : List Event
returns_then = proceeds ∷ proceeds ∷ proceeds ∷ proceeds ∷ []

still_blocked : (after (some 5) true blocks_first).owner ≡ blocked
unfolding history advance run_finisher run_owner release
still_blocked = refl

has_ended : (after (some 5) true blocks_first).finisher ≡ finished
unfolding history advance run_finisher run_owner release
has_ended = refl

has_left : (after (some 5) true blocks_first).owner ≢ holds
has_left e = false≢true (sym (ap is_blocked e) ∙ ap is_blocked still_blocked)

has_joined : (after (some 5) false (blocks_first ++ returns_then)).owner ≡ joined (some 5)
unfolding history advance run_finisher run_owner release
has_joined = refl

state_freed_once_example :
    let s = after (some 5) true blocks_first in
    (s.refs ≡ shares_finisher s.finisher + shares_owner s.owner)
    × (s.freed ≡ (if s.refs == 0 then 1 else 0))
state_freed_once_example = state_freed_once (some 5) true blocks_first

join_gets_outcome_example :
    ((after (some 5) false (blocks_first ++ returns_then)).is_done ≡ true)
    × (◌≡◌ {A = Option ℕ} (some 5) (some 5))
join_gets_outcome_example =
    join_gets_outcome (some 5) false (blocks_first ++ returns_then) (some 5) has_joined

join_returns_example :
    Ends (some 5) true (proceed (some 5) true (after (some 5) true blocks_first) 4).owner
join_returns_example = join_returns (some 5) true blocks_first has_ended has_left
