-- ===== src/Sched/LocalWork/Conserve.antt =====
-- No task is lost or doubled by the operations of a worker.
use stackfull.Base.{
  ℕ, ◌+◌, ◌≡◌, refl, ap, ◌∙◌, Bool, true, false, not, ◌||◌, Option, none, some, List, [], ◌∷◌, ◌++◌,
  arith, ltb, if◌then◌else◌, if-cases, sum_by, sum_by-append,
}
use stackfull.Sched.LocalWork.{
  LocalQueue, IsFifo, Worker, k_lifo_cap, take_inbox, after_pop, take_queue, take_from, take_local,
  inject, inject_all, relieve, push_local_fifo,
}

-- The weight of what may be a task.
abbrev pub weigh : (ℕ → ℕ) → Option ℕ → ℕ
weigh f none = 0
weigh f (some task) = f task

module _ (q : LocalQueue) (f : ℕ → ℕ) where
  abbrev pub queued : q.Queue → ℕ
  queued l = sum_by f (q.contents l)

  -- The weight of all tasks of a worker and of those it has handed on, where `f` weighs one.
  abbrev pub weight : Worker q → ℕ
  weight w =
      weigh f w.lifo_slot
      + queued w.local
      + sum_by f w.inbox
      + sum_by f w.gathered
      + sum_by f w.injected
      + sum_by (λ pair. f pair.1) w.sent

  -- Taking: what is taken, and what is left.
  abbrev pub IsSplit : Worker q → Option ℕ × Worker q → Type 0
  IsSplit w r = weigh f r.0 + weight r.1 ≡ weight w

module _ (q : LocalQueue) (fifo : IsFifo q) (f : ℕ → ℕ) where
  pop-queued :
      (l : q.Queue) (o : Option ℕ)
      → (q.pop l).0 ≡ o
      → weigh f o + queued q f (q.pop l).1 ≡ queued q f l
  pop-queued l none e =
      let (before, after) = fifo.pop_none l e in
      omega (arith, ap (sum_by f) before, ap (sum_by f) after)
  pop-queued l (some task) e = omega (arith, ap (sum_by f) (fifo.pop_some l task e))

  push-queued :
      (l : q.Queue) (task : ℕ) (has_room : Bool)
      → (q.push l task).0 ≡ has_room
      → queued q f (q.push l task).1 ≡ (if has_room then queued q f l + f task else queued q f l)
  push-queued l task true e = omega (
    arith,
    ap (sum_by f) (
        fifo.push_keeps l task ∙ ap (λ b. if b then q.contents l ++ task ∷ [] else q.contents l) e),
    sum_by-append f (q.contents l) (task ∷ []),
  )
  push-queued l task false e =
      ap (sum_by f)
        (fifo.push_keeps l task ∙ ap (λ b. if b then q.contents l ++ task ∷ [] else q.contents l) e)

  take_inbox-IsSplit :
      (w : Worker q) (inbox : List ℕ) → w.inbox ≡ inbox → IsSplit q f w (take_inbox q w inbox)
  take_inbox-IsSplit w [] e = omega arith
  take_inbox-IsSplit w (task ∷ inbox) e = omega (arith, ap (sum_by f) e)

  take_queue-IsSplit : (w : Worker q) → IsSplit q f w (take_queue q w)
  take_queue-IsSplit w = popped (q.pop w.local).0 refl
    where
      popped :
          (o : Option ℕ)
          → (q.pop w.local).0 ≡ o
          → IsSplit q f w (after_pop q (record w { lifo_streak = 0 }) (o, (q.pop w.local).1))
      popped (some task) e = omega (arith, pop-queued w.local (some task) e)
      popped none e = omega (
        arith,
        pop-queued w.local none e,
        take_inbox-IsSplit (record w { lifo_streak = 0; local = (q.pop w.local).1 }) w.inbox refl,
      )

  pub take_local-IsSplit : (w : Worker q) → IsSplit q f w (take_local q w)
  unfolding take_local
  take_local-IsSplit w = taken w.lifo_slot refl
    where
      taken : (o : Option ℕ) → w.lifo_slot ≡ o → IsSplit q f w (take_from q w o)
      taken none e = take_queue-IsSplit w
      taken (some task) e =
          if-cases (IsSplit q f w) (ltb w.lifo_streak k_lifo_cap || not (q.has_entries w.local))
            (λ turn. omega (arith, ap (weigh f) e)) (λ other. take_queue-IsSplit w)

  pub inject-weight :
      (w : Worker q) (task : ℕ) → weight q f (inject q w task) ≡ weight q f w + f task
  unfolding inject
  inject-weight w task = omega (arith, sum_by-append f w.injected (task ∷ []))

  inject_all-weight :
      (w : Worker q) (tasks : List ℕ)
      → weight q f (inject_all q w tasks) ≡ weight q f w + sum_by f tasks
  unfolding inject_all
  inject_all-weight w [] = omega arith
  inject_all-weight w (task ∷ tasks) =
      omega (arith, inject_all-weight (inject q w task) tasks, inject-weight w task)

  relieve-weight : (w : Worker q) → weight q f (relieve q w) ≡ weight q f w
  relieve-weight w =
      if-cases (λ u. weight q f u ≡ weight q f w) (q.has_stealers w.local) (λ busy. refl)
        (λ alone.
          let (batch, l) = q.pop_block w.local in
          omega (
            arith,
            inject_all-weight (record w { local = l }) batch,
            ap (sum_by f) (fifo.block_keeps w.local),
            sum_by-append f batch (q.contents l),
          ))

  pub push_local_fifo-weight :
      (w : Worker q) (task : ℕ) → weight q f (push_local_fifo q w task) ≡ weight q f w + f task
  unfolding push_local_fifo
  push_local_fifo-weight w task =
      if-cases (λ u. weight q f u ≡ weight q f w + f task) (q.push w.local task).0
        (λ room. omega (arith, push-queued w.local task true room))
        (λ full.
          let rest = record w { local = (q.push w.local task).1 } in
          omega (
            arith,
            push-queued w.local task false full,
            relieve-weight rest,
            inject-weight (relieve q rest) task,
          ))
