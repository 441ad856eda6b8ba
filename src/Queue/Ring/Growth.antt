-- ===== src/Queue/Ring/Growth.antt =====
-- A step of a ring's parties pushes at most one entry.
use stackfull.Base.{
  ℕ, ◌+◌, ◌≤◌, Bool, not, ◌&&◌, [], ◌∷◌, arith, ltb, ◌==◌, if-cases, length, length-append,
}
use stackfull.Queue.Ring.{
  rests, full, asks, fills, publishes, away, starts, has_head, copies, returns, System, Owner,
  Taker, Mode, Event, pushes, owner_moves, takes, taker_moves, begin_push, begin_take, run_owner,
  run_taker, advance,
}

module _ {ℓ} {A : Type ℓ} (capacity : ℕ) where
  abbrev pub Grows : System A → System A → Type 0
  Grows s s' = length s'.pushed ≤ length s.pushed + 1

  begin_push-Grows : (s : System A) (o : Owner A) (v : A) → Grows s (begin_push capacity s o v)
  begin_push-Grows s rests v = omega arith
  begin_push-Grows s full v = omega arith
  begin_push-Grows s (asks u) v = omega arith
  begin_push-Grows s (fills u) v = omega arith
  begin_push-Grows s (publishes u) v = omega arith

  begin_take-Grows :
      (s : System A) (j : ℕ) (p : Taker A) (m : Mode) → Grows s (begin_take capacity s j p m)
  begin_take-Grows s j away m = omega arith
  begin_take-Grows s j (returns out) m = omega arith
  begin_take-Grows s j (starts _) m = omega arith
  begin_take-Grows s j (has_head _ x) m = omega arith
  begin_take-Grows s j (copies _ x n out) m = omega arith

  run_owner-Grows : (s : System A) (o : Owner A) → Grows s (run_owner capacity s o)
  unfolding run_owner
  run_owner-Grows s rests = omega arith
  run_owner-Grows s full = omega arith
  run_owner-Grows s (asks v) = omega arith
  run_owner-Grows s (fills v) = omega arith
  run_owner-Grows s (publishes v) = omega (arith, length-append s.pushed (v ∷ []))

  run_taker-Grows :
      (s : System A) (j : ℕ) (fails : Bool) (p : Taker A) → Grows s (run_taker capacity s j fails p)
  unfolding run_taker
  run_taker-Grows s j fails away = omega arith
  run_taker-Grows s j fails (returns out) = omega arith
  run_taker-Grows s j fails (starts m) = omega arith
  run_taker-Grows s j fails (has_head m x) = omega arith
  run_taker-Grows s j fails (copies m x n out) =
      if-cases (Grows s) (ltb (length out) n) (λ _. omega arith)
        (λ _.
          if-cases (Grows s) (s.ring.head == x && not fails) (λ _. omega arith) (λ _. omega arith))

  -- A step pushes one entry at most.
  pub advance-Grows : (s : System A) (e : Event A) → Grows s (advance capacity s e)
  unfolding advance
  advance-Grows s (pushes v) = begin_push-Grows s s.owner v
  advance-Grows s owner_moves = run_owner-Grows s s.owner
  advance-Grows s (takes j m) = begin_take-Grows s j (s.takers j) m
  advance-Grows s (taker_moves j fails) = run_taker-Grows s j fails (s.takers j)
