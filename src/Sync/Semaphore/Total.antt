-- ===== src/Sync/Semaphore/Total.antt =====
-- Sums over the threads, and the weights of the points.
use stackfull.Base.{ℕ, ◌+◌, ◌≤◌, ◌≡◌, true, List, [], ◌∷◌, arith, length}
use stackfull.Sync.Semaphore.{Point}
use stackfull.Sync.WaitList.Cancel.{remove}
use stackfull.Sync.WaitList.Seg.{contains}

pub length-remove :
    (xs : List ℕ) (w : ℕ) → contains xs w ≡ true → length (remove xs w) + 1 ≡ length xs
length-remove [] w h = cc
length-remove (x ∷ xs) w h = ground (arith, length-remove xs w)

-- Has announced a waiter that is not in the list: not yet, or no longer.
abbrev pub announced : Point → ℕ
announced Point.try_again = 1
announced Point.retract = 1
announced Point.join = 1
announced (Point.count_out _) = 1
announced Point.cancel_count = 1
announced Point.unwind_count = 1
announced _ = 0

-- Holds the lock: about to join the list, handing permits out, or anything else.
abbrev pub joining : Point → ℕ
joining Point.join = 1
joining _ = 0

abbrev pub handing : Point → ℕ
handing (Point.hand_out _) = 1
handing (Point.count_out _) = 1
handing _ = 0

abbrev pub inside : Point → ℕ
inside Point.announce = 1
inside Point.try_again = 1
inside Point.retract = 1
inside Point.join = 1
inside (Point.hand_out _) = 1
inside (Point.count_out _) = 1
inside (Point.unlink _) = 1
inside Point.cancel_count = 1
inside Point.unwind_unlink = 1
inside Point.unwind_count = 1
inside _ = 0

-- A releaser that will still look at the list.
abbrev pub releasing : Point → ℕ
releasing Point.look = 1
releasing Point.release_lock = 1
releasing (Point.hand_out _) = 1
releasing (Point.count_out _) = 1
releasing _ = 0

-- The permits that a thread has taken and not yet handed on.
abbrev pub carried : Point → ℕ
carried Point.retract = 1
carried (Point.hand_out ws) = length ws
carried (Point.count_out ws) = length ws
carried (Point.notify ws) = length ws
carried _ = 0

pub joining-handing : (p : Point) → joining p + handing p ≤ inside p
joining-handing p = ground arith

pub joining-announced : (p : Point) → joining p + 0 ≤ announced p
joining-announced p = ground arith
