-- ===== src/Queue/Ring/Tests.antt =====
-- A ring of two entries, its owner and two thieves.
use stackfull.Base.{ℕ, ◌≤◌, ◌≡◌, refl, false, List, [], ◌∷◌, ◌++◌, arith, length}
use stackfull.Queue.Ring.{
  System, Event, pushes, owner_moves, takes, taker_moves, single, half, history, initial, advance,
  run_owner, run_taker,
}
use stackfull.Queue.Ring.Fifo.{content, history-IsFifo}

-- Two entries are pushed, a third is refused, both thieves copy the first one, and one wins.
abbrev steps : List (Event ℕ)
steps =
    pushes 7
    ∷ owner_moves
    ∷ owner_moves
    ∷ owner_moves
    ∷ pushes 8
    ∷ owner_moves
    ∷ owner_moves
    ∷ owner_moves
    ∷ pushes 9
    ∷ owner_moves
    ∷ takes 0 single
    ∷ taker_moves 0 false
    ∷ taker_moves 0 false
    ∷ taker_moves 0 false
    ∷ takes 1 half
    ∷ taker_moves 1 false
    ∷ taker_moves 1 false
    ∷ taker_moves 1 false
    ∷ taker_moves 0 false
    ∷ []

abbrev after_steps : System ℕ
after_steps = history 2 (initial (λ i. 0)) steps

stolen : after_steps.taken ≡ 7 ∷ []
unfolding history advance run_owner run_taker
stolen = refl

history-IsFifo_example :
    (after_steps.taken ++ content 2 after_steps.ring ≡ after_steps.pushed)
    × (length (content 2 after_steps.ring) ≤ 2)
history-IsFifo_example = history-IsFifo 2 (λ i. 0) steps (omega arith)
