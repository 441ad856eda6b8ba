-- ===== src/Sched/LocalWork/Fair.antt =====
-- The task that heads the run queue is not starved by tasks that wake each other through the slot.
use stackfull.Base.{
  ℕ, zero, suc, ◌+◌, ◌%◌, ◌^◌, ◌≤◌, ◌<◌, ◌≡◌, refl, sym, subst, ◌∙◌, ◌⊎◌, inl, inr, Bool, true,
  false, not, ◌||◌, Option, none, some, List, [], ◌∷◌, arith, ltb, if-cases, length,
}
use stackfull.Sched.LocalWork.{
  LocalQueue, IsFifo, Worker, k_lifo_cap, after_pop, take_queue, take_from, take_local,
}
use stackfull.Sched.LocalWork.Handed.{arrive, arrive_lem, IsHandedOn}

module _ (q : LocalQueue) where
  -- In the turns, each with the tasks that it wakes, of which at most `n` follow this one: the head
  -- is taken at the end of a turn, or handed on in one.
  pub data Served (head : ℕ) : Worker q → List (List ℕ) → ℕ → Type 0 where
    taken :
        (w : Worker q) (tasks : List ℕ) (more : List (List ℕ)) (n : ℕ)
        → (take_local q (arrive q w tasks)).0 ≡ some head
        → Served head w (tasks ∷ more) n
    handed_on :
        (w : Worker q) (tasks : List ℕ) (more : List (List ℕ)) (n : ℕ)
        → IsHandedOn q head w (arrive q w tasks)
        → Served head w (tasks ∷ more) n
    later :
        (w : Worker q) (tasks : List ℕ) (more : List (List ℕ)) (n : ℕ)
        → Served head (take_local q (arrive q w tasks)).1 more n
        → Served head w (tasks ∷ more) (suc n)

module _ (q : LocalQueue) (fifo : IsFifo q) where
  -- The queue's turn takes its head.
  take_queue_lem :
      (w : Worker q) (task : ℕ) (rest : List ℕ)
      → q.contents w.local ≡ task ∷ rest
      → (take_queue q w).0 ≡ some task
  take_queue_lem w task rest has = popped (q.pop w.local).0 refl
    where
      popped :
          (o : Option ℕ)
          → (q.pop w.local).0 ≡ o
          → (after_pop q (record w { lifo_streak = 0 }) (o, (q.pop w.local).1)).0 ≡ some task
      popped none e = cc (sym has ∙ (fifo.pop_none w.local e).0)
      popped (some other) e = cc (sym has ∙ fifo.pop_some w.local other e)

  has_entries_lem :
      (w : Worker q) (task : ℕ) (rest : List ℕ)
      → q.contents w.local ≡ task ∷ rest
      → q.has_entries w.local ≡ true
  has_entries_lem w task rest has = decided (q.has_entries w.local) refl
    where
      decided : (b : Bool) → q.has_entries w.local ≡ b → b ≡ true
      decided true e = refl
      decided false e = cc (sym has ∙ (fifo.entries_lem w.local).0 e)

  -- The worker after a task from the slot has had its turn.
  abbrev slot_taken : Worker q → Worker q
  slot_taken w = record w { lifo_slot = none; lifo_streak = (w.lifo_streak + 1) % 2 ^ 32 }

  -- The end of a turn: it is the queue's, or the streak of the slot goes on.
  turn_lem :
      (w : Worker q) (head : ℕ) (rest : List ℕ)
      → q.contents w.local ≡ head ∷ rest
      → ((take_local q w).0 ≡ some head)
        ⊎ ((w.lifo_streak < k_lifo_cap) × ((take_local q w).1 ≡ slot_taken w))
  unfolding take_local
  turn_lem w head rest has = from w.lifo_slot
    where
      below :
          ltb w.lifo_streak k_lifo_cap || not (q.has_entries w.local) ≡ true
          → w.lifo_streak < k_lifo_cap
      below turn = ground (arith, has_entries_lem w head rest has)

      from :
          (o : Option ℕ)
          → let r = take_from q w o in
            (r.0 ≡ some head) ⊎ ((w.lifo_streak < k_lifo_cap) × (r.1 ≡ slot_taken w))
      from none = inl (take_queue_lem w head rest has)
      from (some task) =
          if-cases
            (λ (r : Option ℕ × Worker q).
              (r.0 ≡ some head) ⊎ ((w.lifo_streak < k_lifo_cap) × (r.1 ≡ slot_taken w)))
            (ltb w.lifo_streak k_lifo_cap || not (q.has_entries w.local))
            (λ turn. inr (below turn, refl)) (λ other. inl (take_queue_lem w head rest has))

  served :
      (k : ℕ) (w : Worker q) (more : List (List ℕ)) (head : ℕ) (rest : List ℕ)
      → q.contents w.local ≡ head ∷ rest
      → k_lifo_cap ≤ w.lifo_streak + k
      → k < length more
      → Served q head w more k
  served k w [] head rest has cap long = absurd (omega arith)
  served k w (tasks ∷ more) head rest has cap long =
      elim (arrive_lem q fifo w tasks head rest has) [
        | inr h ↦ handed_on w tasks more k h
        | inl (streak, (rest', has'), grown) ↦ elim (turn_lem (arrive q w tasks) head rest' has') [
          | inl now ↦ taken w tasks more k now
          | inr (below, next) ↦
              goes_on (λ j. served j _ more head) k streak rest' has' below next cap long
        ]
      ]
    where
      goes_on :
          ((j : ℕ) (rest' : List ℕ)
            → let v = slot_taken (arrive q w tasks) in
              q.contents v.local ≡ head ∷ rest'
              → k_lifo_cap ≤ v.lifo_streak + j
              → j < length more
              → Served q head v more j)
          → (k : ℕ)
          → let u = arrive q w tasks in
            u.lifo_streak ≡ w.lifo_streak
            → (rest' : List ℕ) → q.contents u.local ≡ head ∷ rest'
            → u.lifo_streak < k_lifo_cap
            → (take_local q u).1 ≡ slot_taken u
            → k_lifo_cap ≤ w.lifo_streak + k
            → k < length (tasks ∷ more)
            → Served q head w (tasks ∷ more) k
      goes_on next_turns zero streak rest' has' below next cap long =
          absurd (omega (arith, streak, below, cap))
      goes_on next_turns (suc k) streak rest' has' below next cap long = later w tasks more k (
          subst (λ (v : Worker q). Served q head v more k) (sym next)
            (next_turns k rest' has' (omega (arith, streak, below, cap)) (omega (arith, long))))

-- Whatever run queue keeps its entries in order while no thief takes any: when a worker's queue has
-- a task at the head, then within the worker's next four turns, whatever and how many tasks those
-- that run in them wake through the slot, that task is taken, or it has been handed to the
-- injection queue, which happens only when the queue with it in front refuses an entry.
pub head_is_served :
    (q : LocalQueue)
    → IsFifo q
    → (w : Worker q) (more : List (List ℕ)) (head : ℕ) (rest : List ℕ)
    → q.contents w.local ≡ head ∷ rest
    → 3 < length more
    → Served q head w more 3
head_is_served q fifo w more head rest has long =
    served q fifo 3 w more head rest has (omega arith) long
