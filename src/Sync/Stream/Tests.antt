-- ===== src/Sync/Stream/Tests.antt =====
-- A stream of two slots, in both policies.
use stackfull.Base.{ℕ, ◌≡◌, refl, false, none, some, List, [], ◌∷◌, arith}
use stackfull.Sync.Slots.{raw}
use stackfull.Sync.Stream.{Stream, drop_oldest}
use stackfull.Sync.Stream
use stackfull.Sync.Stream.Account.{Event, push, close, try_next, next_round, IsAccounted, history}
use stackfull.Sync.Stream.History.{opened, values-IsAccounted}

abbrev two : Stream ℕ
two = record { ring = raw 2; policy = drop_oldest; is_closed = false; consumer = none; dropped = 0 }

new-two : Stream.new 2 drop_oldest ≡ some two
unfolding Stream.new
new-two = refl

-- The consumer waits, three values come, the oldest of them is dropped, and the stream is closed.
abbrev events : List (Event ℕ)
events = next_round 9 ∷ push 1 ∷ push 2 ∷ push 3 ∷ try_next ∷ close ∷ push 4 ∷ []

values-IsAccounted_example : (xs : List ℕ) × IsAccounted (history (opened two) events) xs
values-IsAccounted_example =
    values-IsAccounted 2 drop_oldest two events new-two (omega arith) (omega arith)
