-- ===== src/Sync/WaitList/Tests.antt =====
-- Runs of the waiter list, and the theorems at them.
use stackfull.Base.{◌≡◌, refl, true, false, none, [], ◌∷◌}
use stackfull.Sync.WaitList.{WaitList, fresh, push_back, unlink, pop_front, cancel_waiter, is_empty}
use stackfull.Sync.WaitList.Refine.{IsChain, push_back-IsChain}
use stackfull.Sync.WaitList.Unlink.{unlink-IsChain}
use stackfull.Sync.WaitList.Cancel.{cancel_waiter_lem}

abbrev nobody : WaitList
nobody = record { cell = λ w. fresh; head = none; tail = none }

abbrev three : WaitList
unfolding push_back
three = push_back (push_back (push_back nobody 4) 7) 2

nobody-IsChain : IsChain nobody []
nobody-IsChain = record { chain = tt; starts = refl; ends = refl; distinct = tt; flags = λ w. refl }

three-IsChain : IsChain three (4 ∷ 7 ∷ 2 ∷ [])
unfolding push_back
three-IsChain =
    push_back-IsChain _ (4 ∷ 7 ∷ []) 2
      (push_back-IsChain _ (4 ∷ []) 7 (push_back-IsChain nobody [] 4 nobody-IsChain refl) refl) refl

unlink-IsChain_example : IsChain (unlink three 7) (4 ∷ 2 ∷ [])
unfolding push_back
unlink-IsChain_example = unlink-IsChain three (4 ∷ []) 7 (2 ∷ []) three-IsChain

cancel_waiter_lem_example :
    let (queued, l) = cancel_waiter three 7 in
    (queued ≡ true) × IsChain l (4 ∷ 2 ∷ []) × ((l.cell 7).cancelled ≡ false)
unfolding push_back
cancel_waiter_lem_example = cancel_waiter_lem three (4 ∷ 7 ∷ 2 ∷ []) 7 three-IsChain

emptied : is_empty (pop_front (pop_front (pop_front three).1).1).1 ≡ true
unfolding is_empty pop_front push_back
emptied = refl
