-- ===== src/Sync/WaitList/Refine.antt =====
-- The list in memory behaves as the plain list of its waiters: pushing.
use stackfull.Base.{
  ℕ, ◌≡◌, refl, sym, subst, ◌∙◌, Bool, true, false, Option, none, some, List, [], ◌∷◌, ◌++◌, arith,
  ◌==◌, if◌then◌else◌,
}
use stackfull.Sync.WaitList.{WaitList, write, push_back, link_next, link_prev, push_after}
use stackfull.Sync.WaitList.Seg.{
  contains, Distinct, Disjoint, front, back, last, Seg, contains-append, back-append, contains-last,
  Distinct-join, Seg-append, Seg-update, Seg-set_next, Seg-set_prev, update-ne, ==-false_sym,
  ne_of_contains,
}

-- `l` is the chain of the distinct waiters `xs`, from its head to its tail, and the `linked` flags
-- tell who is in it.
pub record IsChain (l : WaitList) (xs : List ℕ) : Type 0 where
  pub chain : Seg l.cell none xs none
  pub starts : l.head ≡ front xs none
  pub ends : l.tail ≡ back none xs
  pub distinct : Distinct xs
  pub flags : (w : ℕ) → (l.cell w).linked ≡ contains xs w

pub link_next-Seg :
    (l : WaitList) (xs : List ℕ) (q q' : Option ℕ)
    → Distinct xs
    → Seg l.cell none xs q
    → Seg (link_next l (back none xs) q').cell none xs q'
link_next-Seg l [] q q' d s = tt
link_next-Seg l (x ∷ xs) q q' d s = Seg-set_next l.cell none x xs q q' d s

pub link_next-cell :
    (l : WaitList) (xs : List ℕ) (q : Option ℕ) (a : ℕ)
    → contains xs a ≡ false
    → (link_next l (back none xs) q).cell a ≡ l.cell a
link_next-cell l [] q a h = refl
link_next-cell l (x ∷ xs) q a h =
    update-ne l.cell (last x xs) a _
      (==-false_sym _ _ (ne_of_contains (x ∷ xs) a (last x xs) h (contains-last x xs)))

pub link_next-linked :
    (l : WaitList) (o q : Option ℕ) (a : ℕ) → ((link_next l o q).cell a).linked ≡ (l.cell a).linked
link_next-linked l none q a = refl
link_next-linked l (some t) q a = ground arith

pub link_prev-Seg :
    (l : WaitList) (ys : List ℕ) (p p' : Option ℕ)
    → Distinct ys
    → Seg l.cell p ys none
    → Seg (link_prev l (front ys none) p').cell p' ys none
link_prev-Seg l [] p p' d s = tt
link_prev-Seg l (y ∷ ys) p p' d s = Seg-set_prev l.cell p p' y ys none d.0 s

pub link_prev-cell :
    (l : WaitList) (ys : List ℕ) (p : Option ℕ) (a : ℕ)
    → contains ys a ≡ false
    → (link_prev l (front ys none) p).cell a ≡ l.cell a
link_prev-cell l [] p a h = refl
link_prev-cell l (y ∷ ys) p a h = update-ne l.cell y a _ (ground arith)

pub link_prev-linked :
    (l : WaitList) (o p : Option ℕ) (a : ℕ) → ((link_prev l o p).cell a).linked ≡ (l.cell a).linked
link_prev-linked l none p a = refl
link_prev-linked l (some t) p a = ground arith

-- The memory and the list once `w` is written, before it is linked to the old tail.
abbrev written : WaitList → ℕ → Option ℕ → WaitList
written l w t = write l w (record (l.cell w) { next = none; prev = t; linked = true })

written-linked :
    (l : WaitList) (w : ℕ) (t : Option ℕ) (a : ℕ)
    → ((written l w t).cell a).linked ≡ (if w == a then true else (l.cell a).linked)
written-linked l w t a = ground arith

with_last :
    (xs : List ℕ) (w a : ℕ) {b : Bool}
    → b ≡ contains xs a
    → (if w == a then true else b) ≡ contains (xs ++ w ∷ []) a
with_last xs w a e = ground (arith, contains-append xs (w ∷ []) a)

Disjoint-one : (xs : List ℕ) (w : ℕ) → contains xs w ≡ false → Disjoint xs (w ∷ [])
Disjoint-one [] w h = tt
Disjoint-one (x ∷ xs) w h = (ground arith, Disjoint-one xs w (ground arith))

starts_after :
    (l : WaitList) (xs : List ℕ) (w : ℕ)
    → l.head ≡ front xs none
    → (push_after l w (back none xs)).head ≡ front (xs ++ w ∷ []) none
starts_after l [] w e = refl
starts_after l (x ∷ xs) w e = e

push_after-IsChain :
    (l : WaitList) (xs : List ℕ) (w : ℕ)
    → IsChain l xs
    → contains xs w ≡ false
    → IsChain (push_after l w (back none xs)) (xs ++ w ∷ [])
push_after-IsChain l xs w v h =
    let l' = written l w (back none xs) in
    let kept = link_next-cell l' xs (some w) w h in
    record {
      chain =
          Seg-append (link_next l' (back none xs) (some w)).cell none xs (w ∷ []) none
            (link_next-Seg l' xs none (some w) v.distinct
              (Seg-update l.cell w _ none xs none h v.chain))
            (ground (arith, kept), ground (arith, kept), tt);
      starts = starts_after l xs w v.starts;
      ends = rw (back-append none xs (w ∷ []));
      distinct = Distinct-join xs (w ∷ []) v.distinct (refl, tt) (Disjoint-one xs w h);
      flags = λ a.
          link_next-linked l' (back none xs) (some w) a
          ∙ written-linked l w (back none xs) a
          ∙ with_last xs w a (v.flags a);
    }

-- Pushing a waiter that is not in the list appends it.
pub push_back-IsChain :
    (l : WaitList) (xs : List ℕ) (w : ℕ)
    → IsChain l xs
    → contains xs w ≡ false
    → IsChain (push_back l w) (xs ++ w ∷ [])
unfolding push_back
push_back-IsChain l xs w v h =
    subst (λ t. IsChain (push_after l w t) (xs ++ w ∷ [])) (sym v.ends)
      (push_after-IsChain l xs w v h)
