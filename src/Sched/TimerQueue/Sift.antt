-- ===== src/Sched/TimerQueue/Sift.antt =====
-- The sifts keep every entry's `heapIndex`, and restore the order of the heap.
use stackfull.Base.{
  ℕ, zero, suc, ◌≤◌, ◌<◌, ◌≡◌, refl, sym, ap, subst, ◌∙◌, ◌≢◌, inl, inr, Bool, not, arith, ltb,
  ◌==◌, ltb→lt, ==_iff, ==_refl, ne→==, Bool-cases, if-cases, ltb-false→le,
}
use mathlib.Core.Path.{fun_ext}
use stackfull.Sched.TimerQueue.{Heap, swap_at, write, not_queued, key, sift_up}
use stackfull.Sched.TimerQueue.Order.{
  parent, swapped, at_left, at_right, elsewhere, swapped-SwappedAt, IsHeap, IsHeapAbove, above_done,
  above_swap, parent_lt, false→≢,
}

-- The entries of the vector know their places, and no other entry claims to have one.
pub record IsIndexed (h : Heap) : Type 0 where
  pub small : h.size < not_queued
  pub placed : (i : ℕ) → i < h.size → h.heap_index (h.at i) ≡ i
  pub queued_in : (e : ℕ) → h.heap_index e ≢ not_queued → h.heap_index e < h.size
  pub queued_at : (e : ℕ) → h.heap_index e ≢ not_queued → h.at (h.heap_index e) ≡ e

abbrev pub is_queued : Heap → ℕ → Bool
is_queued h e = not (h.heap_index e == not_queued)

pub data WriteAt {ℓ} {A : Type ℓ} (f : ℕ → A) (a : ℕ) (v : A) (i : ℕ) : Type ℓ where
  here : i ≡ a → write f a v i ≡ v → WriteAt f a v i
  there : i ≢ a → write f a v i ≡ f i → WriteAt f a v i

pub write-WriteAt {ℓ} : {A : Type ℓ} (f : ℕ → A) (a : ℕ) (v : A) (i : ℕ) → WriteAt f a v i
write-WriteAt f a v i = elim (Bool-cases (i == a)) [
  | inl e ↦ here ((==_iff i a).0 e) (rw e refl)
  | inr e ↦ there (false→≢ i a e) (rw e refl)
]

pub swapped-left : (f : ℕ → ℕ) (a b : ℕ) → swapped f a b a ≡ f b
swapped-left f a b = rw (==_refl a) refl

pub swapped-right : (f : ℕ → ℕ) (a b : ℕ) → swapped f a b b ≡ f a
swapped-right f a b = elim (Bool-cases (b == a)) [
  | inl e ↦ rw e (ap f ((==_iff b a).0 e))
  | inr e ↦ rw (e, ==_refl b) refl
]

-- What an exchange does to the places.
pub data SwapIndexAt (h : Heap) (a b e : ℕ) : Type 0 where
  first : e ≡ h.at b → (swap_at h a b).heap_index e ≡ a → SwapIndexAt h a b e
  second : e ≡ h.at a → (swap_at h a b).heap_index e ≡ b → SwapIndexAt h a b e
  other :
      e ≢ h.at a → e ≢ h.at b → (swap_at h a b).heap_index e ≡ h.heap_index e → SwapIndexAt h a b e

swap-SwapIndexAt : (h : Heap) (a b e : ℕ) → SwapIndexAt h a b e
swap-SwapIndexAt h a b e =
    let at = swapped h.at a b in
    let inner = write h.heap_index (at a) a in
    elim (write-WriteAt inner (at b) b e) [
      | here same v ↦ second (same ∙ swapped-right h.at a b) v
      | there ne v ↦ elim (write-WriteAt h.heap_index (at a) a e) [
        | here same v' ↦ first (same ∙ swapped-left h.at a b) (v ∙ v')
        | there ne' v' ↦
            other (λ s. ne (s ∙ sym (swapped-right h.at a b)))
              (λ s. ne' (s ∙ sym (swapped-left h.at a b))) (v ∙ v')
      ]
    ]

module _ (h : Heap) (ok : IsIndexed h) (a b : ℕ) (a_in : a < h.size) (b_in : b < h.size) where
  pub same_place : (i j : ℕ) → i < h.size → j < h.size → h.at i ≡ h.at j → i ≡ j
  same_place i j i_in j_in e = sym (ok.placed i i_in) ∙ ap h.heap_index e ∙ ok.placed j j_in

  swap-placed : (i : ℕ) → i < h.size → (swap_at h a b).heap_index ((swap_at h a b).at i) ≡ i
  swap-placed i lt = elim (swap-SwapIndexAt h a b ((swap_at h a b).at i)) [
    | first e v ↦ elim (swapped-SwappedAt h.at a b i) [
      | at_left e' _ ↦ v ∙ sym e'
      | at_right _ e' v' ↦ v ∙ same_place a b a_in b_in (sym v' ∙ e) ∙ sym e'
      | elsewhere _ ne v' ↦ absurd (ne (same_place i b lt b_in (sym v' ∙ e)))
    ]
    | second e v ↦ elim (swapped-SwappedAt h.at a b i) [
      | at_left e' v' ↦ v ∙ same_place b a b_in a_in (sym v' ∙ e) ∙ sym e'
      | at_right _ e' _ ↦ v ∙ sym e'
      | elsewhere ne _ v' ↦ absurd (ne (same_place i a lt a_in (sym v' ∙ e)))
    ]
    | other ne ne' v ↦ elim (swapped-SwappedAt h.at a b i) [
      | at_left _ v' ↦ absurd (ne' v')
      | at_right _ _ v' ↦ absurd (ne v')
      | elsewhere _ _ v' ↦ v ∙ ap h.heap_index v' ∙ ok.placed i lt
    ]
  ]

  swap-queued_at :
      (e : ℕ)
      → (swap_at h a b).heap_index e ≢ not_queued
      → ((swap_at h a b).heap_index e < h.size)
        × ((swap_at h a b).at ((swap_at h a b).heap_index e) ≡ e)
  swap-queued_at e q = elim (swap-SwapIndexAt h a b e) [
    | first same v ↦ (omega arith, ap (swapped h.at a b) v ∙ swapped-left h.at a b ∙ sym same)
    | second same v ↦ (omega arith, ap (swapped h.at a b) v ∙ swapped-right h.at a b ∙ sym same)
    | other ne ne' v ↦
        let queued = λ (n : h.heap_index e ≡ not_queued). q (v ∙ n) in
        let inside = ok.queued_in e queued in
        let found = ok.queued_at e queued in
        (
          omega arith,
          ap (swapped h.at a b) v ∙ elim (swapped-SwappedAt h.at a b (h.heap_index e)) [
            | at_left same _ ↦ absurd (ne (sym found ∙ ap h.at same))
            | at_right _ same _ ↦ absurd (ne' (sym found ∙ ap h.at same))
            | elsewhere _ _ v' ↦ v' ∙ found
          ],
        )
  ]

  pub swap-IsIndexed : IsIndexed (swap_at h a b)
  swap-IsIndexed = record {
    small = ok.small;
    placed = swap-placed;
    queued_in = λ e q. (swap-queued_at e q).0;
    queued_at = λ e q. (swap-queued_at e q).1;
  }

  pub swap-is_queued : (e : ℕ) → is_queued (swap_at h a b) e ≡ is_queued h e
  swap-is_queued e = elim (swap-SwapIndexAt h a b e) [
    | first same v ↦ both e a b v (ap h.heap_index same ∙ ok.placed b b_in) a_in b_in
    | second same v ↦ both e b a v (ap h.heap_index same ∙ ok.placed a a_in) b_in a_in
    | other _ _ v ↦ ap (λ i. not (i == not_queued)) v
  ]
    where
      both :
          (e i j : ℕ)
          → (swap_at h a b).heap_index e ≡ i
          → h.heap_index e ≡ j
          → i < h.size
          → j < h.size
          → is_queued (swap_at h a b) e ≡ is_queued h e
      both e i j v v' i_in j_in =
          ap (λ k. not (k == not_queued)) v
          ∙ ap not (ne→== i not_queued (omega (arith, ok.small)))
          ∙ sym (ap not (ne→== j not_queued (omega (arith, ok.small))))
          ∙ sym (ap (λ k. not (k == not_queued)) v')

-- What the sifts leave: the same entries, indexed.
pub record IsSifted (h h' : Heap) : Type 0 where
  pub indexed : IsIndexed h'
  pub same_size : h'.size ≡ h.size
  pub same_queued : (e : ℕ) → is_queued h' e ≡ is_queued h e

module _ (d : ℕ → ℕ) where
  at_index : (h : Heap) (a b i : ℕ) → swapped (key d h) a b i ≡ key d (swap_at h a b) i
  at_index h a b i = elim (Bool-cases (i == a)) [
    | inl e ↦ rw e refl
    | inr e ↦ elim (Bool-cases (i == b)) [ inl e' ↦ rw (e, e') refl | inr e' ↦ rw (e, e') refl ]
  ]

  pub key-swap_at : (h : Heap) (a b : ℕ) → swapped (key d h) a b ≡ key d (swap_at h a b)
  key-swap_at h a b = fun_ext (at_index h a b)

  pub swap-then :
      (h h' : Heap) (a b : ℕ) (ok : IsIndexed h) (a_in : a < h.size) (b_in : b < h.size)
      → IsSifted (swap_at h a b) h'
      → IsSifted h h'
  swap-then h h' a b ok a_in b_in s = record {
    indexed = s.indexed;
    same_size = s.same_size;
    same_queued = λ e. s.same_queued e ∙ swap-is_queued h ok a b a_in b_in e;
  }

  pub IsSifted-refl : (h : Heap) → IsIndexed h → IsSifted h h
  IsSifted-refl h ok = record { indexed = ok; same_size = refl; same_queued = λ e. refl }

  pub sift_up-IsHeap :
      (fuel i : ℕ) (h : Heap)
      → IsIndexed h
      → IsHeapAbove (key d h) h.size i
      → i < h.size
      → i ≤ fuel
      → let h' = sift_up d fuel i h in IsSifted h h' × IsHeap (key d h') h.size
  unfolding sift_up
  sift_up-IsHeap zero i h ok above inside enough =
      (IsSifted-refl h ok, above_done (key d h) h.size i above (λ pos. absurd (omega arith)))
  sift_up-IsHeap (suc fuel) i h ok above inside enough =
      let Good = λ (h' : Heap). IsSifted h h' × IsHeap (key d h') h.size in
      if-cases Good (i == 0)
        (λ e. (
          IsSifted-refl h ok,
          above_done (key d h) h.size i above (λ pos. absurd (omega (arith, (==_iff i 0).0 e))),
        ))
        (λ ne.
          if-cases Good (ltb (key d h i) (key d h (parent i)))
            (λ less.
              let pos : 0 < i = omega (arith, false→≢ i 0 ne) in
              let up = parent_lt i pos in
              let up_in : parent i < h.size = omega arith in
              let (sifted, heap) =
                sift_up-IsHeap fuel (parent i) (swap_at h i (parent i))
                  (swap-IsIndexed h ok i (parent i) inside up_in)
                  (subst (λ f. IsHeapAbove f h.size (parent i)) (key-swap_at h i (parent i))
                    (above_swap (key d h) h.size i above pos inside (ltb→lt _ _ less)))
                  up_in (omega arith) in
              (swap-then h _ i (parent i) ok inside up_in sifted, heap))
            (λ least. (
              IsSifted-refl h ok,
              above_done (key d h) h.size i above (λ pos. ltb-false→le _ _ least),
            )))
