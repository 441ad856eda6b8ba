-- ===== src/Sync/WaitList/Cancel.antt =====
-- Cancelling a waiter, queued or not.
use stackfull.Base.{
  Bool, subst, sym, ℕ, ◌≡◌, refl, ap, ◌∙◌, true, false, Option, none, some, List, [], ◌∷◌, ◌++◌,
  arith, ◌==◌, if◌then◌else◌, Bool-cases, ==_iff, inl, inr,
}
use stackfull.Sync.WaitList.{
  WaitList, write, bypass_next, bypass_prev, clear, unlink, cancel_waiter, cancel_if, link_next,
  link_prev,
}
use stackfull.Sync.WaitList.Seg.{contains, Seg}
use stackfull.Sync.WaitList.Refine.{IsChain}
use stackfull.Sync.WaitList.Unlink.{unlink-IsChain}

-- The list without its first `w`.
abbrev pub remove : List ℕ → ℕ → List ℕ
remove [] w = []
remove (x ∷ xs) w = if x == w then xs else x ∷ remove xs w

split_at :
    (xs : List ℕ) (w : ℕ)
    → contains xs w ≡ true
    → (ls : List ℕ) × (rs : List ℕ) × (xs ≡ ls ++ w ∷ rs) × (remove xs w ≡ ls ++ rs)
split_at [] w h = cc
split_at (x ∷ xs) w h = elim (Bool-cases (x == w)) [
  | inl e ↦ ([], xs, ap (λ y. y ∷ xs) ((==_iff x w).0 e), rw e)
  | inr e ↦
      let (ls, rs, p, q) = split_at xs w (rw e at h) in
      (x ∷ ls, rs, ap (◌∷◌ x) p, rw e (ap (◌∷◌ x) q))
]

remove_absent : (xs : List ℕ) (w : ℕ) → contains xs w ≡ false → remove xs w ≡ xs
remove_absent [] w h = refl
remove_absent (x ∷ xs) w h = ground (arith, remove_absent xs w)

unlink-remove :
    (l : WaitList) (xs : List ℕ) (w : ℕ)
    → contains xs w ≡ true
    → IsChain l xs
    → IsChain (unlink l w) (remove xs w)
unlink-remove l xs w h v =
    let (ls, rs, p, q) = split_at xs w h in rw q (unlink-IsChain l ls w rs (rw (← p) v))

link_next-cancelled :
    (l : WaitList) (o q : Option ℕ) (a : ℕ)
    → ((link_next l o q).cell a).cancelled ≡ (l.cell a).cancelled
link_next-cancelled l none q a = refl
link_next-cancelled l (some t) q a = ground arith

link_prev-cancelled :
    (l : WaitList) (o q : Option ℕ) (a : ℕ)
    → ((link_prev l o q).cell a).cancelled ≡ (l.cell a).cancelled
link_prev-cancelled l none q a = refl
link_prev-cancelled l (some t) q a = ground arith

clear-cancelled : (l : WaitList) (w : ℕ) → ((clear l w).cell w).cancelled ≡ (l.cell w).cancelled
clear-cancelled l w = ground arith

unlink-cancelled : (l : WaitList) (w : ℕ) → ((unlink l w).cell w).cancelled ≡ (l.cell w).cancelled
unfolding unlink
unlink-cancelled l w =
    clear-cancelled (bypass_prev (bypass_next l w) w) w
    ∙ link_prev-cancelled (bypass_next l w) _ _ w
    ∙ link_next-cancelled l _ _ w

-- A mark on a waiter changes no chain.
module _ (l : WaitList) (w : ℕ) where
  abbrev marked : WaitList
  marked = write l w (record (l.cell w) { cancelled = true })

  marked-next : (a : ℕ) → (marked.cell a).next ≡ (l.cell a).next
  marked-next a = ground arith

  marked-prev : (a : ℕ) → (marked.cell a).prev ≡ (l.cell a).prev
  marked-prev a = ground arith

  marked-linked : (a : ℕ) → (marked.cell a).linked ≡ (l.cell a).linked
  marked-linked a = ground arith

  marked-cancelled : (marked.cell w).cancelled ≡ true
  marked-cancelled = ground arith

  marked-Seg :
      (p : Option ℕ) (xs : List ℕ) (q : Option ℕ) → Seg l.cell p xs q → Seg marked.cell p xs q
  marked-Seg p [] q s = tt
  marked-Seg p (x ∷ xs) q s =
      (marked-prev x ∙ s.0, marked-next x ∙ s.1, marked-Seg (some x) xs q s.2)

  marked-IsChain : (xs : List ℕ) → IsChain l xs → IsChain marked xs
  marked-IsChain xs v = record {
    chain = marked-Seg none xs none v.chain;
    starts = v.starts;
    ends = v.ends;
    distinct = v.distinct;
    flags = λ a. marked-linked a ∙ v.flags a;
  }

-- Cancelling a queued waiter answers true and takes exactly that waiter out; cancelling any other
-- answers false, keeps the list and marks the waiter as cancelled.
pub cancel_waiter_lem :
    (l : WaitList) (xs : List ℕ) (w : ℕ)
    → IsChain l xs
    → let (queued, l') = cancel_waiter l w in
      (queued ≡ contains xs w)
      × IsChain l' (remove xs w)
      × ((l'.cell w).cancelled ≡ (if contains xs w then (l.cell w).cancelled else true))
unfolding cancel_waiter
cancel_waiter_lem l xs w v =
    subst
      (λ b.
        let (queued, l') = cancel_if l w b in
        (queued ≡ contains xs w)
        × IsChain l' (remove xs w)
        × ((l'.cell w).cancelled ≡ (if contains xs w then (l.cell w).cancelled else true)))
      (sym (v.flags w)) (by_case (contains xs w) refl)
  where
    by_case :
        (b : Bool)
        → contains xs w ≡ b
        → let (queued, l') = cancel_if l w b in
          (queued ≡ b)
          × IsChain l' (remove xs w)
          × ((l'.cell w).cancelled ≡ (if b then (l.cell w).cancelled else true))
    by_case true h = (refl, unlink-remove l xs w h v, unlink-cancelled l w)
    by_case false h =
        (refl, rw (remove_absent xs w h) (marked-IsChain l w xs v), marked-cancelled l w)
