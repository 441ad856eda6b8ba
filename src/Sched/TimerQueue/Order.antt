-- ===== src/Sched/TimerQueue/Order.antt =====
-- Binary heaps of numbers, as functions of the index: what one swap of a sift does to the order.
use stackfull.Base.{
  ℕ, ◌-◌, ◌/◌, ◌≤◌, ◌<◌, ◌≡◌, refl, sym, ap, subst, ◌∙◌, ◌≢◌, ◌⊎◌, inl, inr, false, arith, ◌==◌,
  if◌then◌else◌, ==_iff, Bool-cases,
}
use mathlib.Core.Bool.{false≢true}

abbrev pub parent : ℕ → ℕ
parent i = (i - 1) / 2

-- The function after its values at `a` and `b` are exchanged.
abbrev pub swapped : (ℕ → ℕ) → ℕ → ℕ → ℕ → ℕ
swapped f a b i = if i == a then f b else if i == b then f a else f i

-- Where an index of the exchanged function finds its value.
pub data SwappedAt (f : ℕ → ℕ) (a b j : ℕ) : Type 0 where
  at_left : j ≡ a → swapped f a b j ≡ f b → SwappedAt f a b j
  at_right : j ≢ a → j ≡ b → swapped f a b j ≡ f a → SwappedAt f a b j
  elsewhere : j ≢ a → j ≢ b → swapped f a b j ≡ f j → SwappedAt f a b j

pub false→≢ : (a b : ℕ) → (a == b) ≡ false → a ≢ b
false→≢ a b e h = false≢true (sym e ∙ (==_iff a b).1 h)

pub swapped-SwappedAt : (f : ℕ → ℕ) (a b j : ℕ) → SwappedAt f a b j
swapped-SwappedAt f a b j = elim (Bool-cases (j == a)) [
  | inl e ↦ at_left ((==_iff j a).0 e) (rw e refl)
  | inr e ↦ elim (Bool-cases (j == b)) [
    | inl e' ↦ at_right (false→≢ j a e) ((==_iff j b).0 e') (rw (e, e') refl)
    | inr e' ↦ elsewhere (false→≢ j a e) (false→≢ j b e') (rw (e, e') refl)
  ]
]

pub parent_lt : (j : ℕ) → 0 < j → parent j < j
parent_lt j pos = omega arith

-- No key among the first `n` is below its parent's.
pub record IsHeap (d : ℕ → ℕ) (n : ℕ) : Type 0 where
  pub ordered : (j : ℕ) → 0 < j → j < n → d (parent j) ≤ d j

-- So it is, but for the key at `i`, which may be below its parent's.
pub record IsHeapAbove (d : ℕ → ℕ) (n i : ℕ) : Type 0 where
  pub ordered : (j : ℕ) → 0 < j → j < n → j ≢ i → d (parent j) ≤ d j
  pub bridged : (j : ℕ) → 0 < j → j < n → parent j ≡ i → 0 < i → d (parent i) ≤ d j

-- So it is, but for the key at `k`, which came down from `i` and may be above its children's, and
-- for that at `i`, which may be below its parent's as long as `k` is `i`.
pub record IsHeapBelow (d : ℕ → ℕ) (n i k : ℕ) : Type 0 where
  pub ordered : (j : ℕ) → 0 < j → j < n → j ≢ i → parent j ≢ k → d (parent j) ≤ d j
  pub bridged : (j : ℕ) → 0 < j → j < n → parent j ≡ k → 0 < k → d (parent k) ≤ d j
  pub settled : (k ≡ i) ⊎ (i < k) × (0 < i → d (parent i) ≤ d i)

pub above_first : (d : ℕ → ℕ) (n : ℕ) → IsHeapAbove d n 0 → IsHeap d n
above_first d n h = record { ordered = λ j pos lt. h.ordered j pos lt (λ e. absurd (omega arith)) }

-- The key at `i` is no longer below its parent's.
pub above_done :
    (d : ℕ → ℕ) (n i : ℕ) → IsHeapAbove d n i → (0 < i → d (parent i) ≤ d i) → IsHeap d n
above_done d n i h fine = record {
  ordered = λ j pos lt. elim (Bool-cases (j == i)) [
    | inl e ↦
        let e' = (==_iff j i).0 e in
        subst (λ a. d (parent a) ≤ d a) (sym e') (fine (subst (λ a. 0 < a) e' pos))
    | inr e ↦ h.ordered j pos lt (λ e'. absurd (grind arith))
  ];
}

pub heap_above : (d : ℕ → ℕ) (n i : ℕ) → IsHeap d n → i < n → IsHeapAbove d n i
heap_above d n i h inside = record {
  ordered = λ j pos lt ne. h.ordered j pos lt;
  bridged = λ j pos lt e some_parent.
      let up = h.ordered j pos lt in
      let up' = h.ordered i some_parent inside in let here = ap d e in omega arith;
}

-- One turn of the loop of `siftUp`.
pub above_swap :
    (d : ℕ → ℕ) (n i : ℕ)
    → IsHeapAbove d n i
    → 0 < i
    → i < n
    → d i < d (parent i)
    → IsHeapAbove (swapped d i (parent i)) n (parent i)
above_swap d n i h pos inside less = record {
  ordered = λ j nonzero lt ne. elim (swapped-SwappedAt d i (parent i) j) [
    | at_left e v ↦ elim (swapped-SwappedAt d i (parent i) (parent j)) [
      | at_left e' v' ↦ omega arith
      | at_right _ e' v' ↦ omega arith
      | elsewhere _ ne' v' ↦ absurd (ne' (ap parent e))
    ]
    | at_right _ e v ↦ absurd (ne e)
    | elsewhere ne' _ v ↦ elim (swapped-SwappedAt d i (parent i) (parent j)) [
      | at_left e' v' ↦ let up = h.bridged j nonzero lt e' pos in omega arith
      | at_right _ e' v' ↦ let up = h.ordered j nonzero lt ne' in let same = ap d e' in omega arith
      | elsewhere _ _ v' ↦ let up = h.ordered j nonzero lt ne' in omega arith
    ]
  ];
  bridged = λ j nonzero lt e some_parent.
      let up : d (parent (parent i)) ≤ d (parent i) =
        h.ordered (parent i) some_parent (omega arith) (λ e'. absurd (omega arith)) in
      elim (swapped-SwappedAt d i (parent i) (parent (parent i))) [
        | at_left e' _ ↦ absurd (omega arith)
        | at_right _ e' _ ↦ absurd (omega arith)
        | elsewhere _ _ v' ↦ elim (swapped-SwappedAt d i (parent i) j) [
          | at_left _ v ↦ omega arith
          | at_right _ e' _ ↦ absurd (omega arith)
          | elsewhere ne' _ v ↦
              let up' = h.ordered j nonzero lt ne' in let same = ap d e in omega arith
        ]
      ];
}

-- The key at `k` is not above its children's.
pub below_done :
    (d : ℕ → ℕ) (n i k : ℕ)
    → IsHeapBelow d n i k
    → ((j : ℕ) → 0 < j → j < n → parent j ≡ k → d k ≤ d j)
    → IsHeapAbove d n i
below_done d n i k h fine = record {
  ordered = λ j nonzero lt ne. elim (Bool-cases (parent j == k)) [
    | inl e ↦
        let e' = (==_iff (parent j) k).0 e in
        let same = ap d e' in let up = fine j nonzero lt e' in omega arith
    | inr e ↦ h.ordered j nonzero lt ne (false→≢ (parent j) k e)
  ];
  bridged = λ j nonzero lt e pos. elim h.settled [
    | inl same ↦
        subst (λ a. d (parent a) ≤ d j) same
          (h.bridged j nonzero lt (e ∙ sym same) (subst (λ a. 0 < a) (sym same) pos))
    | inr (deep, up) ↦
        let up' = up pos in
        let over =
          h.ordered j nonzero lt (λ e'. absurd (omega arith)) (λ e'. absurd (omega arith)) in
        let same = ap d e in omega arith
  ];
}

-- One turn of the loop of `siftDown`, down to the smaller child `c`.
pub below_swap :
    (d : ℕ → ℕ) (n i k c : ℕ)
    → IsHeapBelow d n i k
    → 0 < c
    → c < n
    → parent c ≡ k
    → d c < d k
    → ((j : ℕ) → 0 < j → j < n → parent j ≡ k → d c ≤ d j)
    → IsHeapBelow (swapped d k c) n i c
below_swap d n i k c h pos inside child less least = record {
  ordered = λ j nonzero lt ne ne_c. elim (swapped-SwappedAt d k c j) [
    | at_left e v ↦
        let up : d (parent k) ≤ d c = h.bridged c pos inside child (omega arith) in
        elim (swapped-SwappedAt d k c (parent j)) [
          | at_left e' _ ↦ absurd (omega arith)
          | at_right _ e' _ ↦ absurd (ne_c e')
          | elsewhere _ _ v' ↦ let same = ap (λ a. d (parent a)) e in omega arith
        ]
    | at_right _ e v ↦ elim (swapped-SwappedAt d k c (parent j)) [
      | at_left _ v' ↦ omega arith
      | at_right _ e' _ ↦ absurd (ne_c e')
      | elsewhere ne' _ _ ↦ absurd (ne' (ap parent e ∙ child))
    ]
    | elsewhere _ _ v ↦ elim (swapped-SwappedAt d k c (parent j)) [
      | at_left e' v' ↦ let up = least j nonzero lt e' in omega arith
      | at_right _ e' _ ↦ absurd (ne_c e')
      | elsewhere ne' _ v' ↦ let up = h.ordered j nonzero lt ne ne' in omega arith
    ]
  ];
  bridged = λ j nonzero lt e pos'. elim (swapped-SwappedAt d k c (parent c)) [
    | at_left _ v ↦ elim (swapped-SwappedAt d k c j) [
      | at_left e' _ ↦ absurd (omega arith)
      | at_right _ e' _ ↦ absurd (omega arith)
      | elsewhere _ _ v' ↦
          let up =
            h.ordered j nonzero lt (λ e'. absurd (omega (arith, from_start)))
              (λ e'. absurd (omega arith)) in
          let same = ap d e in omega arith
    ]
    | at_right ne _ _ ↦ absurd (ne child)
    | elsewhere ne _ _ ↦ absurd (ne child)
  ];
  settled = inr (
    omega (arith, from_start),
    λ pos'. elim (swapped-SwappedAt d k c (parent i)) [
      | at_left e' _ ↦ absurd (omega (arith, from_start))
      | at_right _ e' _ ↦ absurd (omega (arith, from_start))
      | elsewhere _ _ v ↦ elim (swapped-SwappedAt d k c i) [
        | at_left e' v' ↦
            let up : d (parent k) ≤ d c = h.bridged c pos inside child (omega arith) in
            let same = ap (λ a. d (parent a)) e' in omega arith
        | at_right _ e' _ ↦ absurd (omega (arith, from_start))
        | elsewhere ne' _ v' ↦ elim h.settled [
          | inl e ↦ absurd (ne' (sym e))
          | inr (_, up) ↦ let up' = up pos' in omega arith
        ]
      ]
    ],
  );
}
  where
    from_start : i ≤ k
    from_start = elim h.settled [ inl e ↦ omega arith | inr (deep, _) ↦ omega arith ]
