-- ===== src/Sched/TimerQueue/Fire.antt =====
-- What `fireExpired` fires, and in which order.
use stackfull.Base.{
  ℕ, zero, suc, ◌≤◌, ◌<◌, ◌≡◌, refl, sym, ap, ◌∙◌, inl, inr, Bool, true, false, not, ◌&&◌, ◌||◌,
  List, [], ◌∷◌, arith, ltb, ◌==◌, if◌then◌else◌, ltb→lt, ne→==, Bool-cases, if-cases, ltb-false→le,
  All,
}
use mathlib.Core.Bool.{false≢true}
use stackfull.Sched.TimerQueue.{TimerQueue, remove_locked, key, fire_at, fire_rounds, fire_expired}
use stackfull.Sched.TimerQueue.Order.{false→≢}
use stackfull.Sched.TimerQueue.Sift.{is_queued}
use stackfull.Sched.TimerQueue.Calls.{
  IsTimerQueue, queued_le, earliest_lem, at-is_queued, queued_place, remove_locked-IsTimerQueue,
}

-- The deadlines of these entries do not fall, from `low` on.
abbrev pub Rising : (ℕ → ℕ) → ℕ → List ℕ → Type 0
Rising d low [] = Unit
Rising d low (e ∷ es) = (low ≤ d e) × Rising d (d e) es

abbrev pub member : ℕ → List ℕ → Bool
member e [] = false
member e (x ∷ xs) = (e == x) || member e xs

-- What rounds on `q` that fired `es` and left `q'` have done.
pub record IsFired (q : TimerQueue) (now : ℕ) (es : List ℕ) (q' : TimerQueue) : Type 0 where
  pub ok : IsTimerQueue q'
  pub same_deadlines : q'.deadline ≡ q.deadline
  pub due : All (λ e. q.deadline e ≤ now) es
  pub left : (e : ℕ) → is_queued q'.heap e ≡ not (member e es) && is_queued q.heap e
  pub were_queued : All (λ e. is_queued q.heap e ≡ true) es
  pub marked : (e : ℕ) → q'.fired e ≡ member e es || q.fired e
  pub none_due : (e : ℕ) → is_queued q'.heap e ≡ true → now < q'.deadline e

stop-IsFired :
    (q : TimerQueue) (now : ℕ)
    → IsTimerQueue q
    → ((e : ℕ) → is_queued q.heap e ≡ true → now < q.deadline e)
    → IsFired q now [] q
stop-IsFired q now ok later = record {
  ok = ok;
  same_deadlines = refl;
  due = tt;
  left = λ e. refl;
  were_queued = tt;
  marked = λ e. refl;
  none_due = later;
}

and_right : (a b : Bool) → a && b ≡ true → b ≡ true
and_right true b h = h
and_right false b h = absurd (false≢true h)

pub both_lem : (a b c : Bool) → not b && (not a && c) ≡ not (a || b) && c
both_lem true true c = refl
both_lem true false c = refl
both_lem false true c = refl
both_lem false false c = refl

-- The mark changes nothing else.
pub mark-IsTimerQueue :
    (q : TimerQueue) (fired : ℕ → Bool) → IsTimerQueue q → IsTimerQueue (record q { fired = fired })
mark-IsTimerQueue q fired ok = record {
  indexed = ok.indexed;
  in_order = ok.in_order;
  published = record {
    size_shown = ok.published.size_shown;
    earliest_shown = ok.published.earliest_shown;
    active_shown = ok.published.active_shown;
  };
}

-- One entry fired, and then those of the rounds that follow.
next-IsFired :
    (q : TimerQueue) (now : ℕ) (es : List ℕ) (q' : TimerQueue)
    → IsTimerQueue q
    → 0 < q.heap.size
    → q.deadline (q.heap.at 0) ≤ now
    → IsFired (fire_at q 0) now es q'
    → IsFired q now (q.heap.at 0 ∷ es) q'
next-IsFired q now es q' ok pos is_due f =
    let (_, _, others) = remove_locked-IsTimerQueue q 0 ok pos in
    record {
      ok = f.ok;
      same_deadlines = f.same_deadlines;
      due = (is_due, f.due);
      left = λ e.
          f.left e
          ∙ ap (λ b. not (member e es) && b) (others e)
          ∙ both_lem (e == q.heap.at 0) (member e es) (is_queued q.heap e);
      were_queued = (
        at-is_queued q.heap 0 ok.indexed pos,
        All-map es (λ e h. and_right _ _ (sym (others e) ∙ h)) f.were_queued,
      );
      marked = λ e. f.marked e ∙ marked_lem (e == q.heap.at 0) (member e es) (q.fired e);
      none_due = f.none_due;
    }
  where
    marked_lem : (a b c : Bool) → b || (if a then true else c) ≡ (a || b) || c
    marked_lem true true c = refl
    marked_lem true false c = refl
    marked_lem false true c = refl
    marked_lem false false c = refl

    All-map : {P Q : ℕ → Type 0} (es : List ℕ) → ((e : ℕ) → P e → Q e) → All P es → All Q es
    All-map [] f h = tt
    All-map (e ∷ es) f h = (f e h.0, All-map es f h.1)

fire_rounds-IsFired :
    (fuel : ℕ) (q : TimerQueue) (now low : ℕ)
    → IsTimerQueue q
    → q.heap.size ≤ fuel
    → ((e : ℕ) → is_queued q.heap e ≡ true → low ≤ q.deadline e)
    → let (es, q') = fire_rounds fuel q now in IsFired q now es q' × Rising q.deadline low es
unfolding fire_rounds
fire_rounds-IsFired zero q now low ok enough bound = (
  stop-IsFired q now ok
      (λ e h. let (lt, _) = queued_place q.heap e ok.indexed h in absurd (omega arith)),
  tt,
)
fire_rounds-IsFired (suc fuel) q now low ok enough bound =
    if-cases (λ (r : List ℕ × TimerQueue). IsFired q now r.0 r.1 × Rising q.deadline low r.0)
      (q.heap.size == 0 || ltb now (key q.deadline q.heap 0))
      (λ stop. (
        stop-IsFired q now ok (λ e h.
            let (lt, _) = queued_place q.heap e ok.indexed h in
            let nonzero = ne→== q.heap.size 0 (omega arith) in
            let before = ltb→lt _ _ (rw nonzero at stop) in
            let first = earliest_lem q ok (omega arith) in
            let least = queued_le q e ok h in omega arith),
        tt,
      ))
      (λ goes. elim (Bool-cases (q.heap.size == 0)) [
        | inl e ↦
            absurd (false≢true (sym goes ∙ ap (λ b. b || ltb now (key q.deadline q.heap 0)) e))
        | inr ne ↦
            let pos : 0 < q.heap.size = omega (arith, false→≢ q.heap.size 0 ne) in
            let root = q.heap.at 0 in
            let is_due = ltb-false→le _ _ (rw ne at goes) in
            let (ok', fewer, others) = remove_locked-IsTimerQueue q 0 ok pos in
            let first = earliest_lem q ok pos in
            let (f, rising) =
              fire_rounds-IsFired fuel (fire_at q 0) now (q.deadline root)
                (mark-IsTimerQueue (remove_locked q 0) _ ok') (omega arith)
                (λ e h.
                  let was = queued_le q e ok (and_right _ _ (sym (others e) ∙ h)) in omega arith) in
            (
              next-IsFired q now _ _ ok pos is_due f,
              (bound root (at-is_queued q.heap 0 ok.indexed pos), rising),
            )
      ])

-- On a well-formed queue whose calls are not interleaved, the entries that fire are those that
-- were queued with a deadline not after `now`, in the order of their deadlines; they are marked and
-- leave the queue, which stays well formed, and all others stay.
pub fire_expired-IsFired :
    (q : TimerQueue) (now : ℕ)
    → IsTimerQueue q
    → let (es, q') = fire_expired q now in IsFired q now es q' × Rising q.deadline 0 es
unfolding fire_expired
fire_expired-IsFired q now ok =
    fire_rounds-IsFired q.heap.size q now 0 ok (omega arith) (λ e h. omega arith)
