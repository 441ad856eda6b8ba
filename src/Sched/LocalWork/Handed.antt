-- ===== src/Sched/LocalWork/Handed.antt =====
-- What the wakes of a running task do to the head of the run queue of its worker.
use stackfull.Base.{
  ℕ, ◌≡◌, refl, sym, ap, ◌∙◌, ◌⊎◌, inl, inr, Bool, true, false, Option, none, some, List, [], ◌∷◌,
  ◌++◌, if◌then◌else◌, if-cases, get_elem?,
}
use mathlib.Core.Option.{some-injective}
use mathlib.Core.List.{append-nil, append_assoc}
use stackfull.Sched.LocalWork.{
  LocalQueue, IsFifo, Worker, displace, push_local_fifo, push_local_lifo, inject, inject_all,
  relieve,
}

module _ (q : LocalQueue) where
  -- The task that runs wakes others, one after another.
  unfoldable pub arrive : Worker q → List ℕ → Worker q
  arrive w [] = w
  arrive w (task ∷ tasks) = arrive (push_local_lifo q w task) tasks

  -- From `w` to `w'`, tasks were appended to the injection queue, `head` among them, and this when
  -- a queue with `head` in front refused an entry.
  pub record IsHandedOn (head : ℕ) (w w' : Worker q) : Type 0 where
    pub before : List ℕ
    pub after : List ℕ
    pub handed : w'.injected ≡ w.injected ++ (before ++ head ∷ after)
    pub full : q.Queue
    pub rest : List ℕ
    pub headed : q.contents full ≡ head ∷ rest
    pub refused : (task : ℕ) × ((q.push full task).0 ≡ false)

  -- The queue still has `head` in front, and the streak of the slot is as it was.
  abbrev pub IsKept : ℕ → Worker q → Worker q → Type 0
  IsKept head w w' =
      (w'.lifo_streak ≡ w.lifo_streak)
      × ((rest : List ℕ) × (q.contents w'.local ≡ head ∷ rest))
      × ((extra : List ℕ) × (w'.injected ≡ w.injected ++ extra))

  abbrev pub IsGrown : Worker q → Worker q → Type 0
  IsGrown w w' = (extra : List ℕ) × (w'.injected ≡ w.injected ++ extra)

  inject_all_lem :
      (w : Worker q) (tasks : List ℕ)
      → let w' = inject_all q w tasks in
        (w'.injected ≡ w.injected ++ tasks)
        × (w'.local ≡ w.local)
        × (w'.lifo_streak ≡ w.lifo_streak)
  unfolding inject_all inject
  inject_all_lem w [] = (sym (append-nil w.injected), refl, refl)
  inject_all_lem w (task ∷ tasks) =
      let (grown, same, streak) = inject_all_lem (inject q w task) tasks in
      (grown ∙ append_assoc w.injected (task ∷ []) tasks, same, streak)

  IsGrown-trans : (u v w : Worker q) → IsGrown u v → IsGrown v w → IsGrown u w
  IsGrown-trans u v w (a, e) (b, d) = (a ++ b, d ∙ ap (λ l. l ++ b) e ∙ append_assoc u.injected a b)

  relieve-IsGrown : (w : Worker q) → IsGrown w (relieve q w)
  relieve-IsGrown w =
      if-cases (λ u. IsGrown w u) (q.has_stealers w.local) (λ _. ([], sym (append-nil w.injected)))
        (λ _.
          let (batch, l) = q.pop_block w.local in
          (batch, (inject_all_lem (record w { local = l }) batch).0))

  push_local_fifo-IsGrown : (w : Worker q) (task : ℕ) → IsGrown w (push_local_fifo q w task)
  unfolding push_local_fifo inject
  push_local_fifo-IsGrown w task =
      if-cases (λ u. IsGrown w u) (q.push w.local task).0 (λ _. ([], sym (append-nil w.injected)))
        (λ _.
          let v = relieve q (record w { local = (q.push w.local task).1 }) in
          IsGrown-trans w v (inject q v task) (relieve-IsGrown _) (task ∷ [], refl))

  push_local_lifo-IsGrown : (w : Worker q) (task : ℕ) → IsGrown w (push_local_lifo q w task)
  unfolding push_local_lifo
  push_local_lifo-IsGrown w task = displaced w.lifo_slot
    where
      displaced : (o : Option ℕ) → IsGrown w (record (displace q w o) { lifo_slot = some task })
      displaced none = ([], sym (append-nil w.injected))
      displaced (some old) = push_local_fifo-IsGrown w old

  arrive-IsGrown : (w : Worker q) (tasks : List ℕ) → IsGrown w (arrive w tasks)
  unfolding arrive
  arrive-IsGrown w [] = ([], sym (append-nil w.injected))
  arrive-IsGrown w (task ∷ tasks) =
      let u = push_local_lifo q w task in
      IsGrown-trans w u (arrive u tasks) (push_local_lifo-IsGrown w task) (arrive-IsGrown u tasks)

  -- What is handed on stays handed on, after what had been appended before.
  handed_grown :
      (head : ℕ) (u v w : Worker q) → IsHandedOn head u v → IsGrown v w → IsHandedOn head u w
  handed_grown head u v w h (extra, e) = record {
    before = h.before;
    after = h.after ++ extra;
    handed =
        e
        ∙ ap (λ l. l ++ extra) h.handed
        ∙ append_assoc u.injected (h.before ++ head ∷ h.after) extra
        ∙ ap (λ l. u.injected ++ l) (append_assoc h.before (head ∷ h.after) extra);
    full = h.full;
    rest = h.rest;
    headed = h.headed;
    refused = h.refused;
  }

  grown_handed :
      (head : ℕ) (u v w : Worker q) → IsGrown u v → IsHandedOn head v w → IsHandedOn head u w
  grown_handed head u v w (extra, e) h = record {
    before = extra ++ h.before;
    after = h.after;
    handed =
        h.handed
        ∙ ap (λ l. l ++ (h.before ++ head ∷ h.after)) e
        ∙ append_assoc u.injected extra (h.before ++ head ∷ h.after)
        ∙ ap (λ l. u.injected ++ l) (sym (append_assoc extra h.before (head ∷ h.after)));
    full = h.full;
    rest = h.rest;
    headed = h.headed;
    refused = h.refused;
  }

module _ (q : LocalQueue) (fifo : IsFifo q) where
  -- A wake finds room, or sends the newcomer on, or the block at the front of the queue.
  push_local_fifo_lem :
      (w : Worker q) (task head : ℕ) (rest : List ℕ)
      → q.contents w.local ≡ head ∷ rest
      → let w' = push_local_fifo q w task in IsKept q head w w' ⊎ IsHandedOn q head w w'
  unfolding push_local_fifo inject
  push_local_fifo_lem w task head rest has =
      let Fate = λ (u : Worker q). IsKept q head w u ⊎ IsHandedOn q head w u in
      let (room, l) = q.push w.local task in
      let keeps = λ (b : Bool) (e : room ≡ b).
        fifo.push_keeps w.local task
        ∙ ap (λ b. if b then q.contents w.local ++ task ∷ [] else q.contents w.local) e in
      if-cases Fate room
        (λ yes. inl (
          refl,
          (rest ++ task ∷ [], keeps true yes ∙ ap (λ l. l ++ task ∷ []) has),
          ([], sym (append-nil w.injected)),
        ))
        (λ fails.
          let has' : q.contents l ≡ head ∷ rest = keeps false fails ∙ has in
          if-cases (λ (u : Worker q). Fate (inject q u task)) (q.has_stealers l)
            (λ _. inl (refl, (rest, has'), (task ∷ [], refl)))
            (λ _. blocked fails l has' (q.pop_block l).0 refl))
    where
      blocked :
          (q.push w.local task).0 ≡ false
          → (l : q.Queue) → q.contents l ≡ head ∷ rest
          → (batch : List ℕ) → (q.pop_block l).0 ≡ batch
          → let u = inject q (inject_all q (record w { local = (q.pop_block l).1 }) batch) task in
            IsKept q head w u ⊎ IsHandedOn q head w u
      blocked fails l has' [] e =
          let left : q.contents (q.pop_block l).1 ≡ head ∷ rest =
            sym (fifo.block_keeps l ∙ ap (λ b. b ++ q.contents (q.pop_block l).1) e) ∙ has' in
          let (grown, same, streak) =
            inject_all_lem q (record w { local = (q.pop_block l).1 }) [] in
          inl (
            streak,
            (rest, ap q.contents same ∙ left),
            (task ∷ [], ap (λ i. i ++ task ∷ []) (grown ∙ append-nil w.injected)),
          )
      blocked fails l has' (first ∷ more) e =
          let left =
            sym has' ∙ fifo.block_keeps l ∙ ap (λ b. b ++ q.contents (q.pop_block l).1) e in
          let same : first ≡ head = sym (some-injective _ _ (ap (λ l. get_elem? l 0) left)) in
          let (grown, local, streak) =
            inject_all_lem q (record w { local = (q.pop_block l).1 }) (first ∷ more) in
          inr (record {
            before = [];
            after = more ++ task ∷ [];
            handed =
                ap (λ i. i ++ task ∷ []) grown
                ∙ append_assoc w.injected (first ∷ more) (task ∷ [])
                ∙ ap (λ n. w.injected ++ n ∷ (more ++ task ∷ [])) same;
            full = w.local;
            rest = rest;
            headed = has;
            refused = (task, fails);
          })

  push_local_lifo_lem :
      (w : Worker q) (task head : ℕ) (rest : List ℕ)
      → q.contents w.local ≡ head ∷ rest
      → let w' = push_local_lifo q w task in IsKept q head w w' ⊎ IsHandedOn q head w w'
  unfolding push_local_lifo
  push_local_lifo_lem w task head rest has = displaced w.lifo_slot
    where
      displaced :
          (o : Option ℕ)
          → let w' = record (displace q w o) { lifo_slot = some task } in
            IsKept q head w w' ⊎ IsHandedOn q head w w'
      displaced none = inl (refl, (rest, has), ([], sym (append-nil w.injected)))
      displaced (some old) = elim (push_local_fifo_lem w old head rest has) [
        | inl kept ↦ inl kept
        | inr h ↦ inr (record {
          before = h.before;
          after = h.after;
          handed = h.handed;
          full = h.full;
          rest = h.rest;
          headed = h.headed;
          refused = h.refused;
        })
      ]

  pub arrive_lem :
      (w : Worker q) (tasks : List ℕ) (head : ℕ) (rest : List ℕ)
      → q.contents w.local ≡ head ∷ rest
      → IsKept q head w (arrive q w tasks) ⊎ IsHandedOn q head w (arrive q w tasks)
  unfolding arrive
  arrive_lem w [] head rest has = inl (refl, (rest, has), ([], sym (append-nil w.injected)))
  arrive_lem w (task ∷ tasks) head rest has =
      let u = push_local_lifo q w task in
      let v = arrive q u tasks in
      elim (push_local_lifo_lem w task head rest has) [
        | inr h ↦ inr (handed_grown q head w u v h (arrive-IsGrown q u tasks))
        | inl (streak, (rest', has'), grown) ↦ elim (arrive_lem u tasks head rest' has') [
          | inr h ↦ inr (grown_handed q head w u v grown h)
          | inl (streak', left, grown') ↦
              inl (streak' ∙ streak, left, IsGrown-trans q w u v grown grown')
        ]
      ]
