-- ===== src/Sync/WaitList/Unlink.antt =====
-- Taking a waiter out of the list in memory takes it out of the plain list.
use mathlib.Core.List.{append-nil}
use stackfull.Base.{
  ℕ, ◌≡◌, refl, sym, ap, ap₂, subst, ◌∙◌, Bool, true, false, Option, none, some, List, [], ◌∷◌,
  ◌++◌, arith, ◌==◌, if◌then◌else◌, Bool-cases, ==_iff, inl, inr,
}
use stackfull.Sync.WaitList.{
  WaitList, bypass_next, bypass_prev, clear, unlink, pop_front, link_next, link_prev, pop_first,
}
use stackfull.Sync.WaitList.Seg.{
  contains, Distinct, Disjoint, front, back, Seg, contains-append, back-append, Distinct-split,
  Distinct-join, Seg-append, Seg-split, Seg-update, Seg-cong, update-ne, ne_of_contains,
  Disjoint_lem,
}
use stackfull.Sync.WaitList.Refine.{
  IsChain, link_next-Seg, link_next-cell, link_next-linked, link_prev-Seg, link_prev-cell,
  link_prev-linked,
}

-- What is behind the first waiter.
abbrev pub rest : List ℕ → List ℕ
rest [] = []
rest (x ∷ xs) = xs

-- What `link_next` does at the end of the chain `xs`.
-- What `unlink` leaves, in terms of the neighbours `p` and `n` of the waiter.
abbrev unlinked : WaitList → ℕ → Option ℕ → Option ℕ → WaitList
unlinked l w p n = clear (link_prev (link_next l p n) n p) w

unlink-unlinked :
    (l : WaitList) (w : ℕ) (p n : Option ℕ)
    → (l.cell w).prev ≡ p
    → (l.cell w).next ≡ n
    → (link_next l p n).cell w ≡ l.cell w
    → unlink l w ≡ unlinked l w p n
unfolding unlink
unlink-unlinked l w p n ep en kept =
    let first : bypass_next l w ≡ link_next l p n = ap₂ (link_next l) ep en in
    let ep' : ((link_next l p n).cell w).prev ≡ p = ap (λ v. v.prev) kept ∙ ep in
    let en' : ((link_next l p n).cell w).next ≡ n = ap (λ v. v.next) kept ∙ en in
    ap (λ m. clear (bypass_prev m w) w) first
    ∙ ap (λ m. clear m w) (ap₂ (link_prev (link_next l p n)) en' ep')

head-unlinked :
    (l : WaitList) (xs : List ℕ) (w : ℕ) (ys : List ℕ)
    → l.head ≡ front (xs ++ w ∷ ys) none
    → (unlinked l w (back none xs) (front ys none)).head ≡ front (xs ++ ys) none
head-unlinked l [] w [] e = refl
head-unlinked l [] w (y ∷ ys) e = refl
head-unlinked l (x ∷ xs) w [] e = e
head-unlinked l (x ∷ xs) w (y ∷ ys) e = e

tail-unlinked :
    (l : WaitList) (xs : List ℕ) (w : ℕ) (ys : List ℕ)
    → l.tail ≡ back none (xs ++ w ∷ ys)
    → (unlinked l w (back none xs) (front ys none)).tail ≡ back none (xs ++ ys)
tail-unlinked l xs w [] e = rw append-nil
tail-unlinked l [] w (y ∷ ys) e = e
tail-unlinked l (x ∷ xs) w (y ∷ ys) e =
    e ∙ back-append none (x ∷ xs) (w ∷ y ∷ ys) ∙ sym (back-append none (x ∷ xs) (y ∷ ys))

clear-linked :
    (l : WaitList) (w a : ℕ)
    → ((clear l w).cell a).linked ≡ (if w == a then false else (l.cell a).linked)
clear-linked l w a = ground arith

-- Without `w`, which stands there once.
without :
    (xs : List ℕ) (w : ℕ) (ys : List ℕ) (a : ℕ) {b : Bool}
    → contains xs w ≡ false
    → contains ys w ≡ false
    → b ≡ contains (xs ++ w ∷ ys) a
    → (if w == a then false else b) ≡ contains (xs ++ ys) a
without xs w ys a hx hy e = elim (Bool-cases (w == a)) [
  | inl h ↦ let same : w ≡ a = (==_iff w a).0 h in rw (h, ← same, contains-append xs ys w, hx, hy)
  | inr h ↦ rw (h, e, contains-append xs (w ∷ ys) a, h, contains-append xs ys a)
]

apart : (xs ys : List ℕ) (a : ℕ) → Disjoint xs ys → contains ys a ≡ true → contains xs a ≡ false
apart xs ys a d e = elim (Bool-cases (contains xs a)) [
  | inl h ↦ cc (Disjoint_lem xs ys a d h)
  | inr h ↦ h
]

Disjoint-tail :
    (xs : List ℕ) (w : ℕ) (ys : List ℕ)
    → Disjoint xs (w ∷ ys)
    → Disjoint xs ys × (contains xs w ≡ false)
Disjoint-tail [] w ys d = (tt, refl)
Disjoint-tail (x ∷ xs) w ys d =
    let (dj, out) = Disjoint-tail xs w ys d.1 in ((ground (arith, d.0), dj), ground (arith, d.0))

module _ (l : WaitList) (xs : List ℕ) (w : ℕ) (ys : List ℕ) (out_x : contains xs w ≡ false)
    (out_y : contains ys w ≡ false) (dx : Distinct xs) (dy : Distinct ys)
    (dj : Disjoint xs ys) where
  -- Each side keeps its chain while the other side, and then `w`, are written.
  left-Seg :
      Seg l.cell none xs (some w)
      → Seg (unlinked l w (back none xs) (front ys none)).cell none xs (front ys none)
  left-Seg s =
      let l1 = link_next l (back none xs) (front ys none) in
      let l2 = link_prev l1 (front ys none) (back none xs) in
      Seg-cong l1.cell (clear l2 w).cell none xs (front ys none)
        (λ a e.
          update-ne l2.cell w a _ (ne_of_contains xs w a out_x e)
          ∙ link_prev-cell l1 ys (back none xs) a (Disjoint_lem xs ys a dj e))
        (link_next-Seg l xs (some w) (front ys none) dx s)

  right-Seg :
      Seg l.cell (some w) ys none
      → Seg (unlinked l w (back none xs) (front ys none)).cell (back none xs) ys none
  right-Seg s =
      let l1 = link_next l (back none xs) (front ys none) in
      Seg-update _ w _ (back none xs) ys none out_y (
        link_prev-Seg l1 ys (some w) (back none xs) dy (
          Seg-cong l.cell l1.cell (some w) ys none
            (λ a e. link_next-cell l xs (front ys none) a (apart xs ys a dj e)) s))

  linked-unlinked :
      (a : ℕ)
      → (l.cell a).linked ≡ contains (xs ++ w ∷ ys) a
      → ((unlinked l w (back none xs) (front ys none)).cell a).linked ≡ contains (xs ++ ys) a
  linked-unlinked a e =
      let l1 = link_next l (back none xs) (front ys none) in
      clear-linked (link_prev l1 (front ys none) (back none xs)) w a
      ∙ without xs w ys a out_x out_y (
          link_prev-linked l1 (front ys none) (back none xs) a
          ∙ link_next-linked l (back none xs) (front ys none) a
          ∙ e)

-- Unlinking takes one waiter out, wherever it stands, and keeps the others in order.
pub unlink-IsChain :
    (l : WaitList) (xs : List ℕ) (w : ℕ) (ys : List ℕ)
    → IsChain l (xs ++ w ∷ ys)
    → IsChain (unlink l w) (xs ++ ys)
unlink-IsChain l xs w ys v =
    let (sx, (before, after, sy)) = Seg-split l.cell none xs (w ∷ ys) none v.chain in
    let (dx, (out_y, dy), dj') = Distinct-split xs (w ∷ ys) v.distinct in
    let (dj, out_x) = Disjoint-tail xs w ys dj' in
    rw (unlink-unlinked l w _ _ before after (link_next-cell l xs _ w out_x)) (record {
      chain =
          Seg-append (unlinked l w (back none xs) (front ys none)).cell none xs ys none
            (left-Seg l xs w ys out_x out_y dx dy dj sx)
            (right-Seg l xs w ys out_x out_y dx dy dj sy);
      starts = head-unlinked l xs w ys v.starts;
      ends = tail-unlinked l xs w ys v.ends;
      distinct = Distinct-join xs ys dx dy dj;
      flags = λ a. linked-unlinked l xs w ys out_x out_y dx dy dj a (v.flags a);
    })

-- Popping takes the first waiter, if there is one.
pub pop_front_lem :
    (l : WaitList) (xs : List ℕ)
    → IsChain l xs
    → let (w, l') = pop_front l in (w ≡ front xs none) × IsChain l' (rest xs)
unfolding pop_front
pop_front_lem l xs v =
    subst (λ h. let (w, l') = pop_first l h in (w ≡ front xs none) × IsChain l' (rest xs))
      (sym v.starts) (popped xs v)
  where
    popped :
        (ys : List ℕ)
        → IsChain l ys
        → let (w, l') = pop_first l (front ys none) in (w ≡ front ys none) × IsChain l' (rest ys)
    popped [] u = (refl, u)
    popped (y ∷ ys) u = (refl, unlink-IsChain l [] y ys u)
