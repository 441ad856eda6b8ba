-- ===== src/Sched/TimerQueue/Calls.antt =====
-- The calls of a timer queue, on every branch.
use stackfull.Base.{
  ℕ, zero, suc, ◌+◌, ◌-◌, ◌≤◌, ◌<◌, ◌≡◌, refl, sym, ap, subst, ◌∙◌, inl, inr, Bool, true, false,
  not, ◌&&◌, ◌||◌, arith, ◌==◌, if◌then◌else◌, ==_iff, ==_refl, ne→==, Bool-cases, if-cases,
}
use mathlib.Core.Bool.{false≢true}
use stackfull.Sched.TimerQueue.{
  TimerQueue, Heap, key, write, not_queued, no_deadline, insert, remove_at, publish_locked, enqueue,
  add, remove_locked, cancel,
}
use stackfull.Sched.TimerQueue.Order.{parent, parent_lt, IsHeap}
use stackfull.Sched.TimerQueue.Sift.{IsIndexed, is_queued}
use stackfull.Sched.TimerQueue.Insert.{insert-IsHeap, appended-is_queued, remove_at-IsWithout}

-- The mirrors tell the truth.
pub record IsPublished (q : TimerQueue) : Type 0 where
  pub size_shown : q.size ≡ q.heap.size
  pub earliest_shown :
      q.earliest ≡ (if q.heap.size == 0 then no_deadline else key q.deadline q.heap 0)
  pub active_shown : q.is_active ≡ not (q.heap.size == 0)

pub record IsTimerQueue (q : TimerQueue) : Type 0 where
  pub indexed : IsIndexed q.heap
  pub in_order : IsHeap (key q.deadline q.heap) q.heap.size
  pub published : IsPublished q

bit_lem :
    (before now bit : Bool)
    → bit ≡ not before
    → (if before && not now then true else if not before && now then false else bit) ≡ not now
bit_lem true true bit e = e
bit_lem true false bit e = refl
bit_lem false true bit e = refl
bit_lem false false bit e = e

-- A change of the heap that is published at the end.
publish-IsTimerQueue :
    (q : TimerQueue)
    → IsIndexed q.heap
    → IsHeap (key q.deadline q.heap) q.heap.size
    → q.is_active ≡ not (q.size == 0)
    → IsTimerQueue (publish_locked q)
publish-IsTimerQueue q ok heap was = record {
  indexed = ok;
  in_order = heap;
  published = record {
    size_shown = refl;
    earliest_shown = refl;
    active_shown = bit_lem (q.size == 0) (q.heap.size == 0) q.is_active was;
  };
}

-- No key is below the first.
root_le : (d : ℕ → ℕ) (n : ℕ) → IsHeap d n → (j : ℕ) → j < n → d 0 ≤ d j
root_le d n h j lt = climb j j (omega arith) lt
  where
    climb : (fuel j : ℕ) → j ≤ fuel → j < n → d 0 ≤ d j
    climb fuel zero le lt = omega arith
    climb zero (suc j) le lt = absurd (omega arith)
    climb (suc fuel) (suc j) le lt =
        let below = parent_lt (suc j) (omega arith) in
        let up = h.ordered (suc j) (omega arith) lt in
        let rest = climb fuel (parent (suc j)) (omega arith) (omega arith) in omega arith

pub or_true : (b : Bool) → b || true ≡ true
or_true true = refl
or_true false = refl

pub queued_place :
    (h : Heap) (e : ℕ)
    → IsIndexed h
    → is_queued h e ≡ true
    → (h.heap_index e < h.size) × (h.at (h.heap_index e) ≡ e)
queued_place h e ok queued =
    let q = λ (n : h.heap_index e ≡ not_queued).
      false≢true (sym (ap (λ i. not (i == not_queued)) n) ∙ queued) in
    (ok.queued_in e q, ok.queued_at e q)

pub at-is_queued : (h : Heap) (i : ℕ) → IsIndexed h → i < h.size → is_queued h (h.at i) ≡ true
at-is_queued h i ok lt =
    let here = ok.placed i lt in
    ap not (ne→== (h.heap_index (h.at i)) not_queued (omega (arith, ok.small)))

pub earliest_lem :
    (q : TimerQueue) → IsTimerQueue q → 0 < q.heap.size → q.earliest ≡ key q.deadline q.heap 0
earliest_lem q ok pos = ok.published.earliest_shown ∙ rw (ne→== q.heap.size 0 (omega arith)) refl

-- No queued deadline is earlier than the published one.
pub queued_le :
    (q : TimerQueue) (e : ℕ)
    → IsTimerQueue q
    → is_queued q.heap e ≡ true
    → q.earliest ≤ q.deadline e
queued_le q e ok queued =
    let (lt, found) = queued_place q.heap e ok.indexed queued in
    let first = earliest_lem q ok (omega arith) in
    let least = root_le (key q.deadline q.heap) q.heap.size ok.in_order (q.heap.heap_index e) lt in
    let same = ap q.deadline found in omega arith

module _ (q : TimerQueue) (ok : IsTimerQueue q) where
  was_active : q.is_active ≡ not (q.size == 0)
  was_active = ok.published.active_shown ∙ sym (ap (λ n. not (n == 0)) ok.published.size_shown)

  module _ (e : ℕ) (new : is_queued q.heap e ≡ false) (room : q.heap.size + 1 < not_queued) where
    enqueue-IsTimerQueue :
        IsTimerQueue (enqueue q e)
        × ((e' : ℕ) → is_queued (enqueue q e).heap e' ≡ (e' == e) || is_queued q.heap e')
        × (0 < (enqueue q e).heap.size)
    enqueue-IsTimerQueue =
        let (sifted, heap) = insert-IsHeap q.heap ok.indexed e new room q.deadline ok.in_order in
        let h' = insert q.deadline q.heap e in
        (
          publish-IsTimerQueue (record q { fired = write q.fired e false; heap = h' })
              sifted.indexed (subst (λ n. IsHeap (key q.deadline h') n) (sym sifted.same_size) heap)
              was_active,
          λ e'. sifted.same_queued e' ∙ appended-is_queued q.heap ok.indexed e new room e',
          omega (arith, sifted.same_size),
        )

-- On a well-formed queue of fewer than 2^64 - 2 entries, an entry that is not queued is queued
-- beside the others, the queue stays well formed, and the answer says which deadline is published:
-- the new one, or the one before.
pub add-IsTimerQueue :
    (q : TimerQueue) (e : ℕ)
    → IsTimerQueue q
    → is_queued q.heap e ≡ false
    → q.heap.size + 1 < not_queued
    → let (became_earliest, q') = add q e in
      IsTimerQueue q'
      × ((e' : ℕ) → is_queued q'.heap e' ≡ (e' == e) || is_queued q.heap e')
      × (became_earliest ≡ true → q'.earliest ≡ q.deadline e)
      × (became_earliest ≡ false → q'.earliest ≡ q.earliest)
unfolding add
add-IsTimerQueue q e ok new room =
    let q' = enqueue q e in
    let (ok', queued, pos) = enqueue-IsTimerQueue q ok e new room in
    let first = earliest_lem q' ok' pos in
    (
      ok',
      queued,
      λ became. first ∙ ap q.deadline ((==_iff (q'.heap.at 0) e).0 became),
      λ other.
          let root = q'.heap.at 0 in
          let was : is_queued q.heap root ≡ true =
            sym (queued root ∙ rw other refl) ∙ at-is_queued q'.heap 0 ok'.indexed pos in
          let le = queued_le q root ok was in
          let nonzero : 0 < q.heap.size =
            (let lt = (queued_place q.heap root ok.indexed was).0 in omega arith) in
          let old_root = q.heap.at 0 in
          let old : is_queued q'.heap old_root ≡ true =
            queued old_root
            ∙ ap (λ b. (old_root == e) || b) (at-is_queued q.heap 0 ok.indexed nonzero)
            ∙ or_true (old_root == e) in
          let le' = queued_le q' old_root ok' old in
          let before = earliest_lem q ok nonzero in omega arith,
    )

pub remove_locked-IsTimerQueue :
    (q : TimerQueue) (i : ℕ)
    → IsTimerQueue q
    → i < q.heap.size
    → let q' = remove_locked q i in
      IsTimerQueue q'
      × (q'.heap.size ≡ q.heap.size - 1)
      × ((e' : ℕ) → is_queued q'.heap e' ≡ not (e' == q.heap.at i) && is_queued q.heap e')
remove_locked-IsTimerQueue q i ok inside =
    let without = remove_at-IsWithout q.heap ok.indexed q.deadline ok.in_order i inside in
    (
      publish-IsTimerQueue (record q { heap = remove_at q.deadline q.heap i }) without.indexed
          without.in_order (was_active q ok),
      without.fewer,
      without.others,
    )

-- On a well-formed queue, a cancellation says whether the entry was queued, and keeps the queue
-- well formed, with exactly the other entries in it; one that was not queued is marked.
pub cancel-IsTimerQueue :
    (q : TimerQueue) (e : ℕ)
    → IsTimerQueue q
    → let (was_queued, q') = cancel q e in
      IsTimerQueue q'
      × (was_queued ≡ is_queued q.heap e)
      × ((e' : ℕ) → is_queued q'.heap e' ≡ not (e' == e) && is_queued q.heap e')
      × (was_queued || q'.cancelled e ≡ true)
unfolding cancel
cancel-IsTimerQueue q e ok =
    if-cases
      (λ (r : Bool × TimerQueue).
        IsTimerQueue r.1
        × (r.0 ≡ is_queued q.heap e)
        × ((e' : ℕ) → is_queued r.1.heap e' ≡ not (e' == e) && is_queued q.heap e')
        × (r.0 || r.1.cancelled e ≡ true))
      (q.heap.heap_index e == not_queued)
      (λ out. (
        record {
          indexed = ok.indexed;
          in_order = ok.in_order;
          published = record {
            size_shown = ok.published.size_shown;
            earliest_shown = ok.published.earliest_shown;
            active_shown = ok.published.active_shown;
          };
        },
        sym (ap not out),
        λ e'. elim (Bool-cases (e' == e)) [
          | inl same ↦
              ap (is_queued q.heap) ((==_iff e' e).0 same)
              ∙ ap not out
              ∙ sym (ap (λ b. not b && is_queued q.heap e') same)
          | inr ne ↦ sym (ap (λ b. not b && is_queued q.heap e') ne)
        ],
        rw (==_refl e) refl,
      ))
      (λ inside.
        let (lt, found) = queued_place q.heap e ok.indexed (ap not inside) in
        let (ok', _, others) = remove_locked-IsTimerQueue q (q.heap.heap_index e) ok lt in
        (
          ok',
          sym (ap not inside),
          λ e'. others e' ∙ ap (λ x. not (e' == x) && is_queued q.heap e') found,
          refl,
        ))
