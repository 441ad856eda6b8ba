-- ===== src/Sched/TimerQueue/Down.antt =====
-- The sift that goes down.
use stackfull.Base.{
  ℕ, zero, suc, ◌+◌, ◌*◌, ◌≤◌, ◌<◌, ◌≡◌, refl, sym, ap, subst, ◌∙◌, ◌⊎◌, inl, inr, arith, ltb, ◌==◌,
  ltb→lt, lt→ltb, ==_iff, Bool-cases, if-cases, ltb-false→le,
}
use mathlib.Core.Bool.{false≢true}
use stackfull.Sched.TimerQueue.{Heap, swap_at, key, sift_down, smaller, smallest}
use stackfull.Sched.TimerQueue.Order.{
  parent, IsHeapAbove, IsHeapBelow, below_done, below_swap, parent_lt, false→≢,
}
use stackfull.Sched.TimerQueue.Sift.{
  IsIndexed, IsSifted, swap-IsIndexed, swap-then, IsSifted-refl, key-swap_at,
}

module _ (d : ℕ → ℕ) where
  -- One of the two tests for the smaller child.
  data SmallerAt (h : Heap) (child s : ℕ) : Type 0 where
    taken :
        child < h.size
        → key d h child < key d h s
        → smaller d h child s ≡ child
        → SmallerAt h child s
    left :
        (child < h.size → key d h s ≤ key d h child) → smaller d h child s ≡ s → SmallerAt h child s

  smaller-SmallerAt : (h : Heap) (child s : ℕ) → SmallerAt h child s
  smaller-SmallerAt h child s = elim (Bool-cases (ltb child h.size)) [
    | inl inside ↦ elim (Bool-cases (ltb (key d h child) (key d h s))) [
      | inl less ↦ taken (ltb→lt _ _ inside) (ltb→lt _ _ less) (rw (inside, less) refl)
      | inr ge ↦ left (λ _. ltb-false→le _ _ ge) (rw (inside, ge) refl)
    ]
    | inr out ↦ left (λ lt. absurd (false≢true (sym out ∙ lt→ltb _ _ lt))) (rw out refl)
  ]

  -- The index that the loop goes on from.
  record IsSmallest (h : Heap) (i s : ℕ) : Type 0 where
    among : (s ≡ i) ⊎ (0 < s) × (s < h.size) × (parent s ≡ i) × (key d h s < key d h i)
    least : (j : ℕ) → 0 < j → j < h.size → parent j ≡ i → key d h s ≤ key d h j

  child-cases : (i j : ℕ) → 0 < j → parent j ≡ i → (j ≡ 2 * i + 1) ⊎ (j ≡ 2 * i + 2)
  child-cases i j pos e = ground arith

  -- What one test leaves: an index that is `i` or a child, and whose key is the least so far.
  record IsLeast (h : Heap) (i child s s' : ℕ) : Type 0 where
    chosen : (s' ≡ s) ⊎ (s' ≡ child) × (child < h.size) × (key d h s' < key d h s)
    child_le : child < h.size → key d h s' ≤ key d h child
    le : key d h s' ≤ key d h s

  smaller-IsLeast : (h : Heap) (i child s : ℕ) → IsLeast h i child s (smaller d h child s)
  smaller-IsLeast h i child s = elim (smaller-SmallerAt h child s) [
    | taken inside less same ↦
        let to = ap (key d h) same in
        record {
          chosen = inr (same, inside, omega arith);
          child_le = λ _. omega arith;
          le = omega arith;
        }
    | left ge same ↦
        let to = ap (key d h) same in
        record {
          chosen = inl same;
          child_le = λ lt. let h = ge lt in omega arith;
          le = omega arith;
        }
  ]

  two-IsSmallest :
      (h : Heap) (i m s : ℕ)
      → IsLeast h i (2 * i + 1) i m
      → IsLeast h i (2 * i + 2) m s
      → IsSmallest h i s
  two-IsSmallest h i m s a b = record {
    among = elim b.chosen [
      | inl e ↦ elim a.chosen [
        | inl e' ↦ inl (e ∙ e')
        | inr (e', inside, less) ↦
            let to = ap (key d h) e in inr (omega arith, omega arith, omega arith, omega arith)
      ]
      | inr (e, inside, less) ↦
          let up = a.le in inr (omega arith, omega arith, omega arith, omega arith)
    ];
    least = λ j pos lt e. elim (child-cases i j pos e) [
      | inl e' ↦
          let to = ap (key d h) e' in
          let up = a.child_le (omega arith) in let up' = b.le in omega arith
      | inr e' ↦ let to = ap (key d h) e' in let up = b.child_le (omega arith) in omega arith
    ];
  }

  smallest-IsSmallest : (h : Heap) (i : ℕ) → IsSmallest h i (smallest d h i)
  smallest-IsSmallest h i =
      two-IsSmallest h i (smaller d h (2 * i + 1) i) (smallest d h i)
        (smaller-IsLeast h i (2 * i + 1) i)
        (smaller-IsLeast h i (2 * i + 2) (smaller d h (2 * i + 1) i))

  pub sift_down-IsHeapAbove :
      (fuel i k : ℕ) (h : Heap)
      → IsIndexed h
      → IsHeapBelow (key d h) h.size i k
      → k < h.size
      → h.size ≤ k + fuel
      → let h' = sift_down d fuel k h in IsSifted h h' × IsHeapAbove (key d h') h.size i
  unfolding sift_down
  sift_down-IsHeapAbove zero i k h ok below inside enough = absurd (omega arith)
  sift_down-IsHeapAbove (suc fuel) i k h ok below inside enough =
      let s = smallest d h k in
      let Good = λ (h' : Heap). IsSifted h h' × IsHeapAbove (key d h') h.size i in
      let chosen = smallest-IsSmallest h k in
      if-cases Good (s == k)
        (λ e. (
          IsSifted-refl d h ok,
          below_done (key d h) h.size i k below (λ j pos lt up.
              subst (λ a. key d h a ≤ key d h j) ((==_iff s k).0 e) (chosen.least j pos lt up)),
        ))
        (λ ne. elim chosen.among [
          | inl e ↦ absurd (false→≢ s k ne e)
          | inr (pos, s_in, child, less) ↦
              let (sifted, heap) =
                sift_down-IsHeapAbove fuel i s (swap_at h k s) (swap-IsIndexed h ok k s inside s_in)
                  (subst (λ f. IsHeapBelow f h.size i s) (key-swap_at d h k s)
                    (below_swap (key d h) h.size i k s below pos s_in child less chosen.least))
                  s_in (omega (arith, parent_lt s pos)) in
              (swap-then d h _ k s ok inside s_in sifted, heap)
        ])
