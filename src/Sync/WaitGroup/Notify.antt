-- ===== src/Sync/WaitGroup/Notify.antt =====
-- A party that releases notifies every waiter of the queue.
use stackfull.Base.{
  ℕ, suc, ◌+◌, ◌≡◌, refl, sym, ap, subst, ◌∙◌, Bool, true, false, ◌||◌, List, [], ◌∷◌, ◌++◌, arith,
  ==_refl, length, replicate,
}
use mathlib.Core.List.{append-nil, append_assoc}
use stackfull.Sync.WaitGroup.{
  WaitGroup, releases, notifies, moves, member, chain_of, run_point, advance, history, put,
}

member-append : (xs ys : List ℕ) (w : ℕ) → member (xs ++ ys) w ≡ member xs w || member ys w
member-append [] ys w = refl
member-append (x ∷ xs) ys w = grind (arith, member-append xs ys w)

member-chain_of :
    (ws chain : List ℕ) (w : ℕ) → member (chain_of ws chain) w ≡ member chain w || member ws w
member-chain_of [] chain w = grind arith
member-chain_of (u ∷ us) chain w = grind (arith, member-chain_of us (u ∷ chain) w)

length-chain_of : (ws chain : List ℕ) → length (chain_of ws chain) ≡ length chain + length ws
length-chain_of [] chain = omega arith
length-chain_of (w ∷ ws) chain = omega (arith, length-chain_of ws (w ∷ chain))

or_true : (b : Bool) → b || true ≡ true
or_true true = refl
or_true false = refl

-- A chain is notified link by link.
notify_chain :
    (g : WaitGroup) (t : ℕ) (ws : List ℕ)
    → g.points t ≡ notifies ws
    → (history g (replicate (length ws) (moves t))).notified ≡ g.notified ++ ws
unfolding history advance run_point
notify_chain g t [] at = sym (append-nil g.notified)
notify_chain g t (w ∷ ws) at =
    let next = record g {
      points = put g.points t (notifies ws);
      notified = g.notified ++ w ∷ [];
    } in
    subst (λ h. (history h (replicate (length ws) (moves t))).notified ≡ g.notified ++ w ∷ ws)
      (sym (ap (run_point g t) at))
      (notify_chain next t ws (rw (==_refl t) refl) ∙ append_assoc g.notified (w ∷ []) ws)

-- A party that is about to release: its next steps, one more than there are waiters in the queue,
-- notify every waiter that is queued.
pub releases-IsNotified :
    (g : WaitGroup) (t w : ℕ)
    → g.points t ≡ releases
    → member g.waiters w ≡ true
    → member (history g (replicate (length g.waiters + 1) (moves t))).notified w ≡ true
unfolding history advance run_point
releases-IsNotified g t w at queued =
    let chain = chain_of g.waiters [] in
    let next = record g { waiters = []; points = put g.points t (notifies chain) } in
    let steps : length chain ≡ length g.waiters = omega (arith, length-chain_of g.waiters []) in
    let told : (history next (replicate (length g.waiters) (moves t))).notified
        ≡ g.notified ++ chain =
      subst (λ n. (history next (replicate n (moves t))).notified ≡ g.notified ++ chain) steps
        (notify_chain next t chain (rw (==_refl t) refl)) in
    let all : (history g (replicate (suc (length g.waiters)) (moves t))).notified
        ≡ g.notified ++ chain =
      subst
        (λ h. (history h (replicate (length g.waiters) (moves t))).notified ≡ g.notified ++ chain)
        (sym (ap (run_point g t) at)) told in
    subst (λ n. member (history g (replicate n (moves t))).notified w ≡ true)
      {x = suc (length g.waiters)} {y = length g.waiters + 1} (omega arith)
      (ap (λ ns. member ns w) all ∙ in_chain)
  where
    in_chain : member (g.notified ++ chain_of g.waiters []) w ≡ true
    in_chain =
        member-append g.notified (chain_of g.waiters []) w
        ∙ rw (member-chain_of g.waiters [] w, queued) (or_true (member g.notified w))
