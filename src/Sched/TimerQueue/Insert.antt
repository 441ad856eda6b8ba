-- ===== src/Sched/TimerQueue/Insert.antt =====
-- Entries that join the heap and leave it.
use stackfull.Base.{
  ℕ, ◌+◌, ◌-◌, ◌<◌, ◌≡◌, refl, sym, ap, subst, ◌∙◌, ◌≢◌, inl, inr, false, not, ◌&&◌, ◌||◌, arith,
  ◌==◌, ==_iff, ==_refl, ne→==, Bool-cases, if-cases,
}
use stackfull.Sync.Slots.{add_size}
use mathlib.Core.Bool.{false≢true}
use stackfull.Sched.TimerQueue.{
  Heap, swap_at, write, not_queued, key, sift_up, sift_down, insert, drop_last, remove_at,
}
use stackfull.Sched.TimerQueue.Order.{
  parent, swapped, at_left, at_right, elsewhere, swapped-SwappedAt, IsHeap, IsHeapAbove,
  IsHeapBelow, parent_lt, false→≢,
}
use stackfull.Sched.TimerQueue.Sift.{
  IsIndexed, is_queued, here, there, write-WriteAt, IsSifted, swap-IsIndexed, swap-is_queued,
  same_place, swapped-right, key-swap_at, sift_up-IsHeap,
}
use stackfull.Sched.TimerQueue.Down.{sift_down-IsHeapAbove}

pub queued_lem : (h : Heap) (e : ℕ) → is_queued h e ≡ false → h.heap_index e ≡ not_queued
queued_lem h e q = elim (Bool-cases (h.heap_index e == not_queued)) [
  | inl same ↦ (==_iff (h.heap_index e) not_queued).0 same
  | inr ne ↦ absurd (false≢true (sym q ∙ ap not ne))
]

-- `push_back`.
abbrev pub appended : Heap → ℕ → Heap
appended h e = record {
  at = write h.at h.size e;
  size = add_size h.size 1;
  heap_index = write h.heap_index e h.size;
}

module _ (h : Heap) (ok : IsIndexed h) (e : ℕ) where
  module _ (new : is_queued h e ≡ false) (room : h.size + 1 < not_queued) where
    not_there : (i : ℕ) → i < h.size → h.at i ≢ e
    not_there i lt same =
        let at_end = queued_lem h e new in
        let here = ok.placed i lt in let moved = ap h.heap_index same in omega (arith, ok.small)

    appended-IsIndexed : IsIndexed (appended h e)
    appended-IsIndexed = record {
      small = omega arith;
      placed = λ i lt. elim (write-WriteAt h.at h.size e i) [
        | here same v ↦ ap (write h.heap_index e h.size) v ∙ rw (==_refl e) (sym same)
        | there ne v ↦
            ap (write h.heap_index e h.size) v
            ∙ (let inside : i < h.size = omega arith in
                elim (write-WriteAt h.heap_index e h.size (h.at i)) [
                  | here same _ ↦ absurd (not_there i inside same)
                  | there _ v' ↦ v' ∙ ok.placed i inside
                ])
      ];
      queued_in = λ e' q. elim (write-WriteAt h.heap_index e h.size e') [
        | here _ v ↦ omega arith
        | there _ v ↦ let lt = ok.queued_in e' (λ n. q (v ∙ n)) in omega (arith, ok.small)
      ];
      queued_at = λ e' q. elim (write-WriteAt h.heap_index e h.size e') [
        | here same v ↦ ap (write h.at h.size e) v ∙ rw (==_refl h.size) (sym same)
        | there _ v ↦
            let q' = λ (n : h.heap_index e' ≡ not_queued). q (v ∙ n) in
            let lt = ok.queued_in e' q' in
            ap (write h.at h.size e) v ∙ elim (write-WriteAt h.at h.size e (h.heap_index e')) [
              | here same _ ↦ absurd (omega arith)
              | there _ v' ↦ v' ∙ ok.queued_at e' q'
            ]
      ];
    }

    pub appended-is_queued : (e' : ℕ) → is_queued (appended h e) e' ≡ (e' == e) || is_queued h e'
    appended-is_queued e' = elim (Bool-cases (e' == e)) [
      | inl same ↦ rw same (ap not (ne→== h.size not_queued (omega arith)))
      | inr ne ↦ rw ne refl
    ]

    pub insert-IsHeap :
        (d : ℕ → ℕ)
        → IsHeap (key d h) h.size
        → let h' = insert d h e in
          IsSifted (appended h e) h' × IsHeap (key d h') (appended h e).size
    insert-IsHeap d heap =
        sift_up-IsHeap d h.size h.size (appended h e) appended-IsIndexed
          (record {
            ordered = λ j pos lt ne. elim (write-WriteAt h.at h.size e j) [
              | here same _ ↦ absurd (ne same)
              | there _ v ↦ elim (write-WriteAt h.at h.size e (parent j)) [
                | here same _ ↦ absurd (omega (arith, parent_lt j pos))
                | there _ v' ↦
                    let up = heap.ordered j pos (omega arith) in
                    let to = ap d v in let to' = ap d v' in omega arith
              ]
            ];
            bridged = λ j pos lt same nonzero. absurd (omega (arith, parent_lt j pos));
          })
          (omega arith) (omega arith)

  -- `pop_back` of the entry at the last place.
  drop_last-IsIndexed : 0 < h.size → h.at (h.size - 1) ≡ e → IsIndexed (drop_last h e)
  drop_last-IsIndexed pos last = record {
    small = omega (arith, ok.small);
    placed = λ i lt. elim (write-WriteAt h.heap_index e not_queued (h.at i)) [
      | here same _ ↦
          let e' =
            same_place h ok 0 0 pos pos i (h.size - 1) (omega arith) (omega arith)
              (same ∙ sym last) in
          absurd (omega arith)
      | there _ v ↦ v ∙ ok.placed i (omega arith)
    ];
    queued_in = λ e' q. elim (write-WriteAt h.heap_index e not_queued e') [
      | here _ v ↦ absurd (q v)
      | there ne v ↦
          let q' = λ (n : h.heap_index e' ≡ not_queued). q (v ∙ n) in
          let lt = ok.queued_in e' q' in
          elim (Bool-cases (h.heap_index e' == h.size - 1)) [
            | inl same ↦ absurd (
                ne (
                  sym (ok.queued_at e' q')
                  ∙ ap h.at ((==_iff (h.heap_index e') (h.size - 1)).0 same)
                  ∙ last))
            | inr other ↦
                let ne' = false→≢ (h.heap_index e') (h.size - 1) other in
                subst (λ n. n < h.size - 1) (sym v) (omega arith)
          ]
    ];
    queued_at = λ e' q. elim (write-WriteAt h.heap_index e not_queued e') [
      | here _ v ↦ absurd (q v)
      | there _ v ↦ ap h.at v ∙ ok.queued_at e' (λ n. q (v ∙ n))
    ];
  }

  drop_last-is_queued : (e' : ℕ) → is_queued (drop_last h e) e' ≡ not (e' == e) && is_queued h e'
  drop_last-is_queued e' = elim (Bool-cases (e' == e)) [
    | inl same ↦ rw same refl
    | inr ne ↦ rw ne refl
  ]

-- What a removal leaves.
pub record IsWithout (d : ℕ → ℕ) (h : Heap) (e : ℕ) (h' : Heap) : Type 0 where
  pub indexed : IsIndexed h'
  pub fewer : h'.size ≡ h.size - 1
  pub others : (e' : ℕ) → is_queued h' e' ≡ not (e' == e) && is_queued h e'
  pub in_order : IsHeap (key d h') h'.size

module _ (h : Heap) (ok : IsIndexed h) (d : ℕ → ℕ) (heap : IsHeap (key d h) h.size) where
  -- The key that comes from the last place may be off, either way.
  swapped-IsHeapBelow :
      (i : ℕ) → i < h.size - 1 → IsHeapBelow (swapped (key d h) i (h.size - 1)) (h.size - 1) i i
  swapped-IsHeapBelow i inside = record {
    ordered = λ j pos lt ne ne'. elim (swapped-SwappedAt (key d h) i (h.size - 1) j) [
      | at_left same _ ↦ absurd (ne same)
      | at_right _ same _ ↦ absurd (omega arith)
      | elsewhere _ _ v ↦ elim (swapped-SwappedAt (key d h) i (h.size - 1) (parent j)) [
        | at_left same _ ↦ absurd (ne' same)
        | at_right _ same _ ↦ absurd (omega (arith, parent_lt j pos))
        | elsewhere _ _ v' ↦ let up = heap.ordered j pos (omega arith) in omega arith
      ]
    ];
    bridged = λ j pos lt child nonzero. elim (swapped-SwappedAt (key d h) i (h.size - 1) j) [
      | at_left same _ ↦ absurd (omega (arith, parent_lt j pos))
      | at_right _ same _ ↦ absurd (omega arith)
      | elsewhere _ _ v ↦ elim (swapped-SwappedAt (key d h) i (h.size - 1) (parent i)) [
        | at_left same _ ↦ absurd (omega (arith, parent_lt i nonzero))
        | at_right _ same _ ↦ absurd (omega (arith, parent_lt i nonzero))
        | elsewhere _ _ v' ↦
            let up = heap.ordered j pos (omega arith) in
            let up' = heap.ordered i nonzero (omega arith) in
            let to = ap (key d h) child in omega arith
      ]
    ];
    settled = inl refl;
  }

  pub remove_at-IsWithout : (i : ℕ) → i < h.size → IsWithout d h (h.at i) (remove_at d h i)
  remove_at-IsWithout i inside =
      if-cases (IsWithout d h (h.at i)) (i == h.size - 1)
        (λ e.
          let last = (==_iff i (h.size - 1)).0 e in
          record {
            indexed = drop_last-IsIndexed h ok (h.at i) (omega arith) (ap h.at (sym last));
            fewer = refl;
            others = drop_last-is_queued h ok (h.at i);
            in_order = record { ordered = λ j pos lt. heap.ordered j pos (omega arith) };
          })
        (λ ne.
          let at_last = h.size - 1 in
          let inner : i < h.size - 1 = omega (arith, false→≢ i (h.size - 1) ne) in
          let last_in : h.size - 1 < h.size = omega arith in
          let h₁ = swap_at h i at_last in
          let ok₁ = swap-IsIndexed h ok i at_last inside last_in in
          let ok₂ =
            drop_last-IsIndexed h₁ ok₁ (h.at i) (omega arith) (swapped-right h.at i at_last) in
          let (down, above) =
            sift_down-IsHeapAbove d h.size i i (drop_last h₁ (h.at i)) ok₂
              (subst (λ f. IsHeapBelow f (h.size - 1) i i) (key-swap_at d h i at_last)
                (swapped-IsHeapBelow i inner))
              inner (omega arith) in
          let h₃ = sift_down d h.size i (drop_last h₁ (h.at i)) in
          let inner' : i < h₃.size = rw down.same_size inner in
          let (up, fixed) =
            sift_up-IsHeap d i i h₃ down.indexed
              (subst (λ n. IsHeapAbove (key d h₃) n i) (sym down.same_size) above) inner'
              (omega arith) in
          record {
            indexed = up.indexed;
            fewer = up.same_size ∙ down.same_size;
            others = λ e'.
                up.same_queued e'
                ∙ down.same_queued e'
                ∙ drop_last-is_queued h₁ ok₁ (h.at i) e'
                ∙ ap (λ b. not (e' == h.at i) && b)
                    (swap-is_queued h ok i at_last inside last_in e');
            in_order = subst (λ n. IsHeap (key d (sift_up d i i h₃)) n) (sym up.same_size) fixed;
          })
