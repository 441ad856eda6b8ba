-- ===== src/Sync/Mailbox/Attach.antt =====
-- A mailbox as a source of a select.
use stackfull.Base.{
  ℕ, ◌≡◌, refl, sym, Bool, true, false, not, ◌||◌, none, some, List, [], ◌∷◌, ==_refl, if-cases,
}
use mathlib.Core.Bool.{false≢true}
use stackfull.Sync.Mailbox.{Mailbox, attach, detach, is_ready, is_empty}

empty_queue : (q : List ℕ) (b : Bool) → not (is_empty q) || b ≡ false → (q ≡ []) × (b ≡ false)
empty_queue [] b e = (refl, e)
empty_queue (f ∷ fs) b e = elim (false≢true (sym e)) [ ]

-- `attach` stores a waker just when `isReady` is false, which is when there is nothing to take in
-- an open mailbox; and a `detach` of the same waiter then takes the waker away.
pub attach-is_ready :
    (b : Mailbox) (w : ℕ)
    → ((attach b w).0 ≡ not (is_ready b))
      × ((attach b w).0 ≡ true
          → (b.queue ≡ [])
            × (b.closed ≡ false)
            × ((attach b w).1.consumer ≡ some w)
            × ((detach (attach b w).1 w).consumer ≡ none))
unfolding attach is_ready detach
attach-is_ready b w =
    if-cases
      (λ (r : Bool × Mailbox).
        (r.0 ≡ not (is_ready b))
        × (r.0 ≡ true
            → (b.queue ≡ [])
              × (b.closed ≡ false)
              × (r.1.consumer ≡ some w)
              × ((detach r.1 w).consumer ≡ none)))
      (not (is_empty b.queue) || b.closed) (λ is_so. (rw is_so refl, λ e. elim (false≢true e) [ ]))
      (λ is_not. (
        rw is_not refl,
        λ _.
            let (no_closure, is_open) = empty_queue b.queue b.closed is_not in
            (no_closure, is_open, refl, rw (==_refl w) refl),
      ))
